-- ===== src/Pese/Append.antt =====
-- A chain that one more envelope is added to.
use asc_orchestrator_v.Base.{
  ℕ, suc, ◌+◌, ◌≡◌, refl, sym, ap, subst, String, true, false, Option, none, some, List, [], ◌∷◌,
  ◌++◌, length, str_eq_refl, arith, nat_eq, ltb, leb,
}
use asc_orchestrator_v.Pese.Types.{Content, Envelope, File, missing, unreadable, readable, Rules}
use asc_orchestrator_v.Pese.Validate.{validate_envelope}
use asc_orchestrator_v.Pese.Update.{write_new, seal}
use asc_orchestrator_v.Pese.Chain.{last_or, IsLink, IsChain}

module _ {S X : Type 0} (rules : Rules S X) where
  -- The hash that the next envelope is linked to.
  abbrev hash_after : String → List (ℕ × File (Envelope S)) → String
  hash_after previous [] = previous
  hash_after previous ((n, missing) ∷ files) = hash_after previous files
  hash_after previous ((n, unreadable) ∷ files) = hash_after previous files
  hash_after previous ((n, readable e) ∷ files) = hash_after e.content.state_sha256 files

  -- What is known of the end of a chain that has one.
  record IsEnd (next : ℕ) (previous : String) (files : List (ℕ × File (Envelope S)))
      (top : Envelope S) : Type 0 where
    revision_is : top.content.revision + 1 ≡ next + length files
    hash_is : hash_after previous files ≡ top.content.state_sha256

  chain-IsEnd :
      (next : ℕ) (previous : String) (files : List (ℕ × File (Envelope S)))
      (before : Option (Envelope S)) (top : Envelope S)
      → IsChain rules next previous files
      → last_or before files ≡ some top
      → (before ≡ some top → IsEnd next previous [] top)
      → IsEnd next previous files top
  chain-IsEnd next previous [] before top c l ends = ends l
  chain-IsEnd next previous ((n, missing) ∷ files) before top c l ends = absurd c
  chain-IsEnd next previous ((n, unreadable) ∷ files) before top c l ends = absurd c
  chain-IsEnd next previous ((n, readable e) ∷ files) before top (k, link, c) l ends =
      let more = chain-IsEnd (next + 1) e.content.state_sha256 files (some e) top c l (λ same.
        let is : e ≡ top = cc in
        record {
          revision_is = omega (arith, link.number, ap (λ v. v.content.revision) is);
          hash_is = ap (λ v. v.content.state_sha256) is;
        }) in
      record { revision_is = omega (arith, more.revision_is); hash_is = more.hash_is }

  -- The number after the last is free, and goes to the end.
  write_end :
      (next : ℕ) (previous : String) (files : List (ℕ × File (Envelope S))) (e : Envelope S)
      → IsChain rules next previous files
      → write_new (next + length files) e files
        ≡ some (files ++ ((next + length files, readable e) ∷ []))
  unfolding write_new
  write_end next previous [] e c = refl
  write_end next previous ((n, missing) ∷ files) e c = absurd c
  write_end next previous ((n, unreadable) ∷ files) e c = absurd c
  write_end next previous ((n, readable f) ∷ files) e (k, link, c) =
      let later : ltb (next + suc (length files)) n ≡ false = ground arith in
      let other : nat_eq (next + suc (length files)) n ≡ false = ground arith in
      let same : next + suc (length files) ≡ next + 1 + length files = omega arith in
      let rest = write_end (next + 1) f.content.state_sha256 files e c in
      let moved : write_new (next + suc (length files)) e files
          ≡ some (files ++ ((next + suc (length files), readable e) ∷ [])) =
        rw same rest in
      rw (later, other, moved) refl

  chain_snoc :
      (next : ℕ) (previous : String) (files : List (ℕ × File (Envelope S))) (e : Envelope S)
      → IsChain rules next previous files
      → IsLink rules (next + length files) (hash_after previous files) e
      → IsChain rules next previous (files ++ ((next + length files, readable e) ∷ []))
  chain_snoc next previous [] e c link =
      (omega arith, subst (λ n. IsLink rules n previous e) (omega arith) link, tt)
  chain_snoc next previous ((n, missing) ∷ files) e c link = absurd c
  chain_snoc next previous ((n, unreadable) ∷ files) e c link = absurd c
  chain_snoc next previous ((n, readable f) ∷ files) e (k, l, c) link =
      let same : next + suc (length files) ≡ next + 1 + length files = omega arith in
      (
        k,
        l,
        subst
            (λ v. IsChain rules (next + 1) f.content.state_sha256 (files ++ ((v, readable e) ∷ [])))
            (sym same)
            (chain_snoc (next + 1) f.content.state_sha256 files e c
              (subst (λ v. IsLink rules v (hash_after f.content.state_sha256 files) e) same link)),
      )

  pub last_snoc :
      (before : Option (Envelope S)) (files : List (ℕ × File (Envelope S))) (n : ℕ) (e : Envelope S)
      → last_or before (files ++ ((n, readable e) ∷ [])) ≡ some e
  last_snoc before [] n e = refl
  last_snoc before ((m, missing) ∷ files) n e = last_snoc before files n e
  last_snoc before ((m, unreadable) ∷ files) n e = last_snoc before files n e
  last_snoc before ((m, readable f) ∷ files) n e = last_snoc (some f) files n e

  -- Both hashes have the form that `HASH_RE` asks for.
  pub record HashShape : Type 0 where
    pub of_state : (s : S) → rules.is_hash (rules.state_hash s) ≡ true
    pub of_file : (c : Content S) → rules.is_hash (rules.file_hash c) ≡ true

  -- A sealed envelope of an accepted state is accepted.
  pub seal_accepted :
      (shape : HashShape) (state : S) (revision : ℕ) (created_at writer : String) (before : ℕ)
      (hash : String)
      → rules.check_shape state ≡ none
      → validate_envelope rules (seal rules state (revision + 1) created_at writer before hash)
        ≡ none
  unfolding validate_envelope seal
  seal_accepted shape state revision created_at writer before hash ok =
      let e = seal rules state (revision + 1) created_at writer before hash in
      let positive : leb 1 (revision + 1) ≡ true = ground arith in
      rw
        (
          positive,
          shape.of_state state,
          shape.of_file e.content,
          str_eq_refl (rules.state_hash state),
          str_eq_refl (rules.file_hash e.content),
          ok,
        )
        refl

  -- The next envelope of a chain: its number is free, and the chain goes on with it.
  pub append_chain :
      (files : List (ℕ × File (Envelope S))) (first : String) (top e : Envelope S)
      → IsChain rules 1 first files
      → last_or none files ≡ some top
      → IsLink rules (top.content.revision + 1) top.content.state_sha256 e
      → (write_new (top.content.revision + 1) e files
          ≡ some (files ++ ((top.content.revision + 1, readable e) ∷ [])))
        × IsChain rules 1 first (files ++ ((top.content.revision + 1, readable e) ∷ []))
  append_chain files first top e c l link =
      let the_end = chain-IsEnd 1 first files none top c l (λ bad. cc) in
      let n : 1 + length files ≡ top.content.revision + 1 = sym the_end.revision_is in
      subst
        (λ v.
          (write_new v e files ≡ some (files ++ ((v, readable e) ∷ [])))
          × IsChain rules 1 first (files ++ ((v, readable e) ∷ [])))
        n
        (
          write_end 1 first files e c,
          chain_snoc 1 first files e c (
              subst (λ h. IsLink rules (1 + length files) h e) (sym the_end.hash_is)
                (subst (λ v. IsLink rules v top.content.state_sha256 e) (sym n) link)),
        )
