-- ===== src/Base/Lists.antt =====
-- Lists measured by native numbers, tests over them, and a predicate on every element.
use Prim.Native.Nat.{ℕ, suc, ◌+◌, ◌≤◌}
use Prim.Native.String.{String}
use mathlib.Core.Path.{◌≡◌, refl}
use mathlib.Core.Logic.{◌⊎◌}
use mathlib.Core.Bool.{Bool, true, false, ◌&&◌, ◌||◌}
use mathlib.Core.List.{List, [], ◌∷◌}
use mathlib.Core.Option.{Option, none, some}
use native.Mathlib.Omega.{arith}
use text.Mathlib.Text.{◌==◌}
use asc_orchestrator_v.Base.Tests.{if◌then◌else◌, &&-left, &&-right}

module _ {ℓ} {A : Type ℓ} where
  abbrev pub length : List A → ℕ
  length [] = 0
  length (x ∷ xs) = suc (length xs)

  -- `[x for x in xs if p(x)]`
  abbrev pub select : (A → Bool) → List A → List A
  select p [] = []
  select p (x ∷ xs) = if p x then x ∷ select p xs else select p xs

  -- `sum(1 for x in xs if p(x))`
  abbrev pub count_if : (A → Bool) → List A → ℕ
  count_if p [] = 0
  count_if p (x ∷ xs) = (if p x then 1 else 0) + count_if p xs

  -- `all(p(x) for x in xs)`
  abbrev pub all_of : (A → Bool) → List A → Bool
  all_of p [] = true
  all_of p (x ∷ xs) = p x && all_of p xs

  abbrev pub head_or_none : List A → Option A
  head_or_none [] = none
  head_or_none (x ∷ xs) = some x

  -- `bool(xs)`
  abbrev pub nonempty : List A → Bool
  nonempty [] = false
  nonempty (x ∷ xs) = true

abbrev pub All {ℓ κ} : {A : Type ℓ} → (A → Type κ) → List A → Type κ
All P [] = Unit
All P (x ∷ xs) = P x × All P xs

abbrev pub Any {ℓ} : {A : Type ℓ} → (A → Type 0) → List A → Type 0
Any P [] = ⊥
Any P (x ∷ xs) = P x ⊎ Any P xs

abbrev pub Member : {A : Type 0} → A → List A → Type 0
Member a xs = Any (λ x. x ≡ a) xs

-- `s in xs`, for texts.
abbrev pub contains : String → List String → Bool
contains s [] = false
contains s (x ∷ xs) = (x == s) || contains s xs

module _ {ℓ} {A : Type ℓ} where
  pub count_if-le-length : (p : A → Bool) (xs : List A) → count_if p xs ≤ length xs
  count_if-le-length p [] = omega arith
  count_if-le-length p (x ∷ xs) = ground (arith, count_if-le-length p xs)

  pub all_of-All : (p : A → Bool) (xs : List A) → all_of p xs ≡ true → All (λ x. p x ≡ true) xs
  all_of-All p [] h = tt
  all_of-All p (x ∷ xs) h = (&&-left (p x) _ h, all_of-All p xs (&&-right (p x) _ h))

  pub All-all_of : (p : A → Bool) (xs : List A) → All (λ x. p x ≡ true) xs → all_of p xs ≡ true
  All-all_of p [] h = refl
  All-all_of p (x ∷ xs) h = ground (arith, All-all_of p xs h.1, h.0)
