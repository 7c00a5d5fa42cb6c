-- ===== src/Base/Slices.antt =====
-- Python's slices and item assignments on a list, measured by native numbers.
use Prim.Native.Nat.{ℕ, zero, suc, ◌+◌, ◌-◌, ◌≤◌}
use mathlib.Core.Path.{◌≡◌, refl, ap}
use mathlib.Core.Logic.{◌⊎◌, inl, inr}
use mathlib.Core.List.{List, [], ◌∷◌, ◌++◌, map}
use native.Mathlib.Omega.{arith}
use asc_orchestrator_v.Base.Lists.{length}

module _ {ℓ} {A : Type ℓ} where
  -- `xs[:n]`
  abbrev pub take : ℕ → List A → List A
  take zero xs = []
  take (suc n) [] = []
  take (suc n) (x ∷ xs) = x ∷ take n xs

  -- `xs[n:]`
  abbrev pub drop : ℕ → List A → List A
  drop zero xs = xs
  drop (suc n) [] = []
  drop (suc n) (x ∷ xs) = drop n xs

  -- `xs[i]`, or a value where Python raises
  abbrev pub get_or : A → List A → ℕ → A
  get_or d [] i = d
  get_or d (x ∷ xs) zero = x
  get_or d (x ∷ xs) (suc i) = get_or d xs i

  -- `xs[i] = v`
  abbrev pub set : List A → ℕ → A → List A
  set [] i v = []
  set (x ∷ xs) zero v = v ∷ xs
  set (x ∷ xs) (suc i) v = x ∷ set xs i v

  -- `[v] * n`
  abbrev pub replicate : ℕ → A → List A
  replicate zero v = []
  replicate (suc n) v = v ∷ replicate n v

  pub length-append : (xs ys : List A) → length (xs ++ ys) ≡ length xs + length ys
  length-append [] ys = omega arith
  length-append (x ∷ xs) ys = omega (arith, length-append xs ys)

  pub length-set : (xs : List A) (i : ℕ) (v : A) → length (set xs i v) ≡ length xs
  length-set [] i v = refl
  length-set (x ∷ xs) zero v = refl
  length-set (x ∷ xs) (suc i) v = ap suc (length-set xs i v)

  pub length-drop : (n : ℕ) (xs : List A) → length (drop n xs) ≡ length xs - n
  length-drop zero xs = omega arith
  length-drop (suc n) [] = omega arith
  length-drop (suc n) (x ∷ xs) = omega (arith, length-drop n xs)

  -- A full first part comes back, and so does one that nothing follows.
  pub take-append :
      (n : ℕ) (xs ys : List A)
      → length xs ≤ n
      → (length xs ≡ n) ⊎ (ys ≡ [])
      → take n (xs ++ ys) ≡ xs
  take-append zero [] ys le c = refl
  take-append zero (x ∷ xs) ys le c = absurd (omega arith)
  take-append (suc n) [] ys le (inl e) = absurd (omega arith)
  take-append (suc n) [] ys le (inr e) = rw e
  take-append (suc n) (x ∷ xs) ys le (inl e) =
      ap (λ l. x ∷ l) (take-append n xs ys (omega arith) (inl (omega arith)))
  take-append (suc n) (x ∷ xs) ys le (inr e) =
      ap (λ l. x ∷ l) (take-append n xs ys (omega arith) (inr e))

  pub drop-append :
      (n : ℕ) (xs ys : List A)
      → length xs ≤ n
      → (length xs ≡ n) ⊎ (ys ≡ [])
      → drop n (xs ++ ys) ≡ ys
  drop-append zero [] ys le c = refl
  drop-append zero (x ∷ xs) ys le c = absurd (omega arith)
  drop-append (suc n) [] ys le (inl e) = absurd (omega arith)
  drop-append (suc n) [] ys le (inr e) = rw e
  drop-append (suc n) (x ∷ xs) ys le (inl e) = drop-append n xs ys (omega arith) (inl (omega arith))
  drop-append (suc n) (x ∷ xs) ys le (inr e) = drop-append n xs ys (omega arith) (inr e)

  pub take-drop : (n : ℕ) (xs : List A) → take n xs ++ drop n xs ≡ xs
  take-drop zero xs = refl
  take-drop (suc n) [] = refl
  take-drop (suc n) (x ∷ xs) = ap (λ l. x ∷ l) (take-drop n xs)

  pub length-take-le : (n : ℕ) (xs : List A) → length (take n xs) ≤ n
  length-take-le zero xs = omega arith
  length-take-le (suc n) [] = omega arith
  length-take-le (suc n) (x ∷ xs) = omega (arith, length-take-le n xs)

  -- A slice is full, or nothing is left behind it.
  pub take_full : (n : ℕ) (xs : List A) → (length (take n xs) ≡ n) ⊎ (drop n xs ≡ [])
  take_full zero xs = inl refl
  take_full (suc n) [] = inr refl
  take_full (suc n) (x ∷ xs) = elim (take_full n xs) [ inl e ↦ inl (ap suc e) | inr e ↦ inr e ]

pub length-map {ℓ κ} :
    {A : Type ℓ} {B : Type κ} (f : A → B) (xs : List A) → length (map f xs) ≡ length xs
length-map f [] = refl
length-map f (x ∷ xs) = ap suc (length-map f xs)
