-- ===== src/Journal/Chain.antt =====
-- Chains of hashed entries, as `verify_chain` of both journals walks them.
use asc_orchestrator_v.Base.{
  ◌≡◌, refl, sym, ◌∙◌, ap, subst, inl, inr, String, Bool, true, false, not, Option, none, some,
  List, [], ◌∷◌, ◌++◌, Member, length, arith, ◌==◌, str_eq→eq, str_eq_refl, if◌then◌else◌,
  Bool-cases,
}

-- An entry: the object without its own hash, and that hash where it is a text.
pub record Entry (B : Type 0) : Type 0 where
  pub body : B
  pub own_hash : Option String

-- `==` of two texts or `None`s.
abbrev pub same_hash : Option String → Option String → Bool
same_hash none none = true
same_hash none (some t) = false
same_hash (some s) none = false
same_hash (some s) (some t) = s == t

pub same_hash→eq : (a b : Option String) → same_hash a b ≡ true → a ≡ b
same_hash→eq none none h = refl
same_hash→eq none (some t) h = cc
same_hash→eq (some s) none h = cc
same_hash→eq (some s) (some t) h = ap some (str_eq→eq s t h)

pub same_hash_refl : (a : Option String) → same_hash a a ≡ true
same_hash_refl none = refl
same_hash_refl (some s) = str_eq_refl s

same_entries :
    {B : Type 0} (e f : Entry B) (es fs : List (Entry B))
    → e.body ≡ f.body
    → e.own_hash ≡ f.own_hash
    → es ≡ fs
    → e ∷ es ≡ f ∷ fs
same_entries e f es fs b h r = cc

-- A body's link to the entry before, and the hash of a body.
module _ {B : Type 0} (link : B → Option String) (digest : B → String) where
  unfoldable pub verify_from : Option String → List (Entry B) → Bool
  verify_from previous [] = true
  verify_from previous (e ∷ es) =
      let rest = verify_from (some (digest e.body)) es in
      if not (same_hash (link e.body) previous)
      then false
      else if not (same_hash e.own_hash (some (digest e.body)))
      then false
      else rest

  -- The hash of the last entry, as it is written there.
  abbrev pub last_or_hash : Option String → List (Entry B) → Option String
  last_or_hash previous [] = previous
  last_or_hash previous (e ∷ es) = last_or_hash e.own_hash es

  -- The first entry of a chain, and the rest of it.
  pub verify_parts :
      (previous : Option String) (e : Entry B) (es : List (Entry B))
      → verify_from previous (e ∷ es) ≡ true
      → (link e.body ≡ previous)
        × (e.own_hash ≡ some (digest e.body))
        × (verify_from (some (digest e.body)) es ≡ true)
  unfolding verify_from
  verify_parts previous e es h = elim (Bool-cases (same_hash (link e.body) previous)) [
    | inr l ↦ let clash : false ≡ true = rw l at h in cc
    | inl l ↦ elim (Bool-cases (same_hash e.own_hash (some (digest e.body)))) [
      | inr o ↦ let clash : false ≡ true = rw (l, o) at h in cc
      | inl o ↦ (
        same_hash→eq (link e.body) previous l,
        same_hash→eq e.own_hash (some (digest e.body)) o,
        rw (l, o) at h,
      )
    ]
  ]

  -- A body that links to the last hash goes on with the chain.
  pub verify_snoc :
      (previous : Option String) (es : List (Entry B)) (b : B)
      → verify_from previous es ≡ true
      → link b ≡ last_or_hash previous es
      → verify_from previous (es ++ (record { body = b; own_hash = some (digest b) } ∷ [])) ≡ true
  unfolding verify_from
  verify_snoc previous [] b h l = rw (l, same_hash_refl previous, str_eq_refl (digest b)) refl
  verify_snoc previous (e ∷ es) b h l =
      let (k, o, rest) = verify_parts previous e es h in
      let more = verify_snoc (some (digest e.body)) es b rest (l ∙ ap (λ v. last_or_hash v es) o) in
      rw (k, same_hash_refl previous, o, str_eq_refl (digest e.body), more) refl

  -- Two chains with as many entries and the same last hash, in which no two bodies that differ
  -- have the same hash.
  pub chains_agree :
      (p q : Option String) (es fs : List (Entry B))
      → verify_from p es ≡ true
      → verify_from q fs ≡ true
      → length es ≡ length fs
      → last_or_hash p es ≡ last_or_hash q fs
      → ((a b : Entry B)
          → Member a es
          → Member b fs
          → digest a.body ≡ digest b.body
          → a.body ≡ b.body)
      → (es ≡ fs) × (p ≡ q)
  chains_agree p q [] [] v w n l free = (refl, l)
  chains_agree p q [] (f ∷ fs) v w n l free = absurd (omega arith)
  chains_agree p q (e ∷ es) [] v w n l free = absurd (omega arith)
  chains_agree p q (e ∷ es) (f ∷ fs) v w n l free =
      let (ke, oe, ve) = verify_parts p e es v in
      let (kf, of, vf) = verify_parts q f fs w in
      let (rest, hash) =
        chains_agree e.own_hash f.own_hash es fs (subst (λ h. verify_from h es ≡ true) (sym oe) ve)
          (subst (λ h. verify_from h fs ≡ true) (sym of) vf) (omega arith) l
          (λ a b i j. free a b (inr i) (inr j)) in
      let digests : some (digest e.body) ≡ some (digest f.body) = sym oe ∙ (hash ∙ of) in
      let bodies = free e f (inl refl) (inl refl) cc in
      (same_entries e f es fs bodies hash rest, sym ke ∙ (ap link bodies ∙ kf))
