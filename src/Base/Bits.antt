-- ===== src/Base/Bits.antt =====
-- Bit operations at variables: the lowest digit of `^`, and that it undoes itself.
use Prim.Native.Nat.{
  ℕ, zero, suc, ◌+◌, ◌-◌, ◌*◌, ◌/◌, ◌%◌, ◌^◌, ◌≤◌, ◌<◌, bit_xor, bit_xor-bitwise, digits, differ,
}
use mathlib.Core.Path.{◌≡◌, refl, ◌∙◌, ap, sym}
use mathlib.Core.Logic.{◌⊎◌, inl, inr}
use native.Mathlib.Decide.{dec_lt}
use native.Mathlib.Nat.{pow-suc}
use native.Mathlib.Omega.{arith}

-- The digits of `^`, with as much fuel as is given.
abbrev xor_with : ℕ → ℕ → ℕ → ℕ
xor_with = digits (λ b. b) differ

-- Fuel for the first number is enough: one unit more changes nothing, and so do many.
one_more : (fuel a b : ℕ) → a ≤ fuel → xor_with (suc fuel) a b ≡ xor_with fuel a b
one_more zero zero b le = refl
one_more (suc fuel) zero b le = refl
one_more zero (suc a) b le = absurd (omega arith)
one_more (suc fuel) (suc a) b le =
    ap (λ high. high * 2 + differ (suc a % 2) (b % 2))
      (one_more fuel (suc a / 2) (b / 2) (omega arith))

many_more : (more fuel a b : ℕ) → a ≤ fuel → xor_with (more + fuel) a b ≡ xor_with fuel a b
many_more zero fuel a b le = ap (λ n. xor_with n a b) (omega arith)
many_more (suc more) fuel a b le =
    let next : suc more + fuel ≡ suc (more + fuel) = omega arith in
    ap (λ n. xor_with n a b) next
    ∙ (one_more (more + fuel) a b (omega arith) ∙ many_more more fuel a b le)

pub zero-bit_xor : (b : ℕ) → bit_xor 0 b ≡ b
zero-bit_xor b = bit_xor-bitwise 0 b

-- The lowest digit, and the other digits.
pub bit_xor_step : (x y : ℕ) → bit_xor x y ≡ bit_xor (x / 2) (y / 2) * 2 + differ (x % 2) (y % 2)
bit_xor_step zero y = omega (arith, zero-bit_xor y, zero-bit_xor (y / 2))
bit_xor_step (suc x) y =
    let half = suc x / 2 in
    let fuel : x - half + half ≡ x = omega arith in
    let fewer : xor_with x half (y / 2) ≡ xor_with half half (y / 2) =
      ap (λ n. xor_with n half (y / 2)) (sym fuel)
      ∙ many_more (x - half) half half (y / 2) (omega arith) in
    omega (arith, fewer, bit_xor-bitwise (suc x) y, bit_xor-bitwise half (y / 2))

-- Of two digits: they differ by at most one, and the second of them is undone.
digit_cases : (a : ℕ) → (a % 2 ≡ 0) ⊎ (a % 2 ≡ 1)
digit_cases a = elim (dec_lt (a % 2) 1) [ yes h ↦ inl (omega arith) | no h ↦ inr (omega arith) ]

differ-lt-two : (a b : ℕ) → differ (a % 2) (b % 2) < 2
differ-lt-two a b = elim (digit_cases a) [
  | inl p ↦ (elim (digit_cases b) [
    | inl q ↦ rw (p, q) (omega arith)
    | inr q ↦ rw (p, q) (omega arith)
  ])
  | inr p ↦ (elim (digit_cases b) [
    | inl q ↦ rw (p, q) (omega arith)
    | inr q ↦ rw (p, q) (omega arith)
  ])
]

differ_undo : (a b : ℕ) → differ (differ (a % 2) (b % 2)) (b % 2) ≡ a % 2
differ_undo a b = elim (digit_cases a) [
  | inl p ↦ (elim (digit_cases b) [ inl q ↦ rw (p, q) refl | inr q ↦ rw (p, q) refl ])
  | inr p ↦ (elim (digit_cases b) [ inl q ↦ rw (p, q) refl | inr q ↦ rw (p, q) refl ])
]

undo_fuel : (n a b : ℕ) → a ≤ n → b ≤ n → bit_xor (bit_xor a b) b ≡ a
undo_fuel zero zero zero p q = refl
undo_fuel zero zero (suc b) p q = absurd (omega arith)
undo_fuel zero (suc a) b p q = absurd (omega arith)
undo_fuel (suc n) a b p q =
    let x = bit_xor a b in
    let d = differ (a % 2) (b % 2) in
    let low : x % 2 ≡ d = omega (arith, bit_xor_step a b, differ-lt-two a b) in
    let high : x / 2 ≡ bit_xor (a / 2) (b / 2) =
      omega (arith, bit_xor_step a b, differ-lt-two a b) in
    let rest = undo_fuel n (a / 2) (b / 2) (omega arith) (omega arith) in
    bit_xor_step x b ∙ rw (high, low) (omega (arith, rest, differ_undo a b))

-- `(a ^ b) ^ b == a`
pub bit_xor_undo : (a b : ℕ) → bit_xor (bit_xor a b) b ≡ a
bit_xor_undo a b = undo_fuel (a + b) a b (omega arith) (omega arith)

pub bit_xor-lt : (k a b : ℕ) → a < 2 ^ k → b < 2 ^ k → bit_xor a b < 2 ^ k
bit_xor-lt zero zero zero p q = omega arith
bit_xor-lt zero zero (suc b) p q = absurd (omega arith)
bit_xor-lt zero (suc a) b p q = absurd (omega arith)
bit_xor-lt (suc k) a b p q = omega (
  arith,
  bit_xor_step a b,
  differ-lt-two a b,
  pow-suc 2 k,
  bit_xor-lt k (a / 2) (b / 2) (omega (arith, pow-suc 2 k)) (omega (arith, pow-suc 2 k)),
)
