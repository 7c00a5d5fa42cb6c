-- ===== src/State/Tasks/Sql.antt =====
-- What an UPDATE and an INSERT do to a later SELECT, for any table.
use asc_orchestrator_v.Base.{
  ◌≡◌, refl, Bool, true, false, Option, none, some, List, [], ◌∷◌, ◌++◌, arith, Bool-cases, inl,
  inr,
}
use asc_orchestrator_v.State.{update_where, fetch_one}

abbrev pub map_some : {A : Type 0} → (A → A) → Option A → Option A
map_some f none = none
map_some f (some a) = some (f a)

module _ {A : Type 0} (p q : A → Bool) (f : A → A) where
  -- An UPDATE that leaves the keys alone changes what its own WHERE clause selects.
  pub fetch_one-update_self :
      (rows : List A)
      → ((r : A) → p (f r) ≡ p r)
      → fetch_one p (update_where p f rows) ≡ map_some f (fetch_one p rows)
  unfolding fetch_one update_where
  fetch_one-update_self [] keep = refl
  fetch_one-update_self (r ∷ rs) keep = elim (Bool-cases (p r)) [
    | inl e ↦ rw (e, keep r, e)
    | inr e ↦ rw (e, e, fetch_one-update_self rs keep)
  ]

  -- It does not change what a WHERE clause selects that never holds with its own.
  pub fetch_one-update_ne :
      (rows : List A)
      → ((r : A) → q r ≡ true → p r ≡ false)
      → ((r : A) → q (f r) ≡ q r)
      → fetch_one q (update_where p f rows) ≡ fetch_one q rows
  unfolding fetch_one update_where
  fetch_one-update_ne [] apart keep = refl
  fetch_one-update_ne (r ∷ rs) apart keep = elim (Bool-cases (p r)) [
    | inl e ↦
        let away : q r ≡ false = (ground (arith, apart r)) in
        rw (e, keep r, away, fetch_one-update_ne rs apart keep)
    | inr e ↦ rw (e, fetch_one-update_ne rs apart keep)
  ]

module _ {A : Type 0} (p : A → Bool) (r : A) where
  pub fetch_one-insert_self :
      (rows : List A) → fetch_one p rows ≡ none → p r ≡ true → fetch_one p (rows ++ r ∷ []) ≡ some r
  unfolding fetch_one
  fetch_one-insert_self [] absent e = rw e
  fetch_one-insert_self (x ∷ xs) absent e = ground (arith, fetch_one-insert_self xs)

  pub fetch_one-insert_ne :
      (rows : List A) → p r ≡ false → fetch_one p (rows ++ r ∷ []) ≡ fetch_one p rows
  unfolding fetch_one
  fetch_one-insert_ne [] e = rw e
  fetch_one-insert_ne (x ∷ xs) e = ground (arith, fetch_one-insert_ne xs e)

pub fetch_one-holds :
    {A : Type 0} (p : A → Bool) (rows : List A) (r : A) → fetch_one p rows ≡ some r → p r ≡ true
unfolding fetch_one
fetch_one-holds p [] r e = cc
fetch_one-holds p (x ∷ xs) r e = ground (arith, fetch_one-holds p xs r)
