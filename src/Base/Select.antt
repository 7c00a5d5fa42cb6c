-- ===== src/Base/Select.antt =====
-- Membership by recursion, and what `select` and `count_if` keep of a list.
use mathlib.Core.Path.{◌≡◌, refl, sym, subst}
use mathlib.Core.Logic.{◌↔◌, inl, inr}
use mathlib.Core.Bool.{Bool, true}
use mathlib.Core.List.{List, [], ◌∷◌}
use native.Mathlib.Omega.{arith}
use asc_orchestrator_v.Base.Tests.{Bool-cases}
use asc_orchestrator_v.Base.Lists.{
  All, Any, Member, length, select, count_if, nonempty, count_if-le-length,
}

module _ {A : Type 0} (p : A → Bool) where
  pub Member-select : (a : A) (xs : List A) → Member a (select p xs) → Member a xs × (p a ≡ true)
  Member-select a [] h = absurd h
  Member-select a (x ∷ xs) h = elim (Bool-cases (p x)) [
    | inl e ↦ split (Member-select a xs) e (rw e at h)
    | inr e ↦ let (m, q) = Member-select a xs (rw e at h) in (inr m, q)
  ]
    where
      split :
          (Member a (select p xs) → Member a xs × (p a ≡ true))
          → p x ≡ true
          → Member a (x ∷ select p xs)
          → Member a (x ∷ xs) × (p a ≡ true)
      split rest e (inl same) = (inl same, subst (λ y. p y ≡ true) same e)
      split rest e (inr m) = let (m', q) = rest m in (inr m', q)

  pub select-Member : (a : A) (xs : List A) → Member a xs → p a ≡ true → Member a (select p xs)
  select-Member a [] m e = absurd m
  select-Member a (x ∷ xs) (inl same) e = rw (subst (λ y. p y ≡ true) (sym same) e) (inl same)
  select-Member a (x ∷ xs) (inr m) e = elim (Bool-cases (p x)) [
    | inl q ↦ rw q (inr (select-Member a xs m e))
    | inr q ↦ rw q (select-Member a xs m e)
  ]

  pub select-nonempty_iff :
      (xs : List A) → (nonempty (select p xs) ≡ true) ↔ Any (λ x. p x ≡ true) xs
  select-nonempty_iff [] = (λ h. cc, λ h. absurd h)
  select-nonempty_iff (x ∷ xs) = elim (Bool-cases (p x)) [
    | inl e ↦ (λ _. inl e, λ _. rw e)
    | inr e ↦ rw e (
      λ h. inr ((select-nonempty_iff xs).0 h),
      elim [ inl q ↦ cc q | inr m ↦ (select-nonempty_iff xs).1 m ],
    )
  ]

  pub count-All_iff : (xs : List A) → (count_if p xs ≡ length xs) ↔ All (λ x. p x ≡ true) xs
  count-All_iff [] = (λ _. tt, λ _. refl)
  count-All_iff (x ∷ xs) = elim (Bool-cases (p x)) [
    | inl e ↦ rw e (
      λ h. (refl, (count-All_iff xs).0 (omega arith)),
      λ h. omega (arith, (count-All_iff xs).1 h.1),
    )
    | inr e ↦ rw e (λ h. absurd (omega (arith, count_if-le-length p xs)), λ h. cc (h.0))
  ]

module _ {A : Type 0} {P Q : A → Type 0} (f : (a : A) → P a ↔ Q a) where
  pub All-iff : (xs : List A) → All P xs ↔ All Q xs
  All-iff [] = (λ h. h, λ h. h)
  All-iff (x ∷ xs) =
      (λ h. ((f x).0 h.0, (All-iff xs).0 h.1), λ h. ((f x).1 h.0, (All-iff xs).1 h.1))

  pub Any-iff : (xs : List A) → Any P xs ↔ Any Q xs
  Any-iff [] = (λ h. h, λ h. h)
  Any-iff (x ∷ xs) = (
    elim [ inl p ↦ inl ((f x).0 p) | inr m ↦ inr ((Any-iff xs).0 m) ],
    elim [ inl p ↦ inl ((f x).1 p) | inr m ↦ inr ((Any-iff xs).1 m) ],
  )

pub iff_trans : {A B C : Type 0} → A ↔ B → B ↔ C → A ↔ C
iff_trans f g = (λ a. g.0 (f.0 a), λ c. f.1 (g.1 c))

pub not_iff : {A B : Type 0} → A ↔ B → (¬ A) ↔ (¬ B)
not_iff f = (λ n b. n (f.1 b), λ n a. n (f.0 a))
