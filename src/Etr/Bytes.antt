-- ===== src/Etr/Bytes.antt =====
-- Bytes as numbers below 256, and their little-endian numbers.
use Prim.Native.Nat.{bit_xor}
use asc_orchestrator_v.Base.{
  ℕ, zero, suc, ◌+◌, ◌≤◌, ◌<◌, ◌≡◌, refl, ap, Bool, true, false, ◌&&◌, List, [], ◌∷◌, All, arith,
  length, nat_eq,
}
use Prim.Native.Nat.{◌*◌, ◌/◌, ◌%◌}
use asc_orchestrator_v.Base.Bits.{bit_xor_undo}

-- `int.from_bytes(bytes, "little")`
unfoldable pub from_bytes : List ℕ → ℕ
from_bytes [] = 0
from_bytes (b ∷ bs) = b + 256 * from_bytes bs

-- `n.to_bytes(length, "little")`, and `struct.pack` with "<I" and "<Q"
unfoldable pub to_bytes : ℕ → ℕ → List ℕ
to_bytes zero n = []
to_bytes (suc length) n = n % 256 ∷ to_bytes length (n / 256)

abbrev pub IsByte : ℕ → Type 0
IsByte b = b < 256

-- `bytes(a ^ b for a, b in zip(xs, ys))`
unfoldable pub xor_bytes : List ℕ → List ℕ → List ℕ
xor_bytes [] ys = []
xor_bytes (x ∷ xs) [] = []
xor_bytes (x ∷ xs) (y ∷ ys) = bit_xor x y ∷ xor_bytes xs ys

-- `hmac.compare_digest`
unfoldable pub same_bytes : List ℕ → List ℕ → Bool
same_bytes [] [] = true
same_bytes [] (y ∷ ys) = false
same_bytes (x ∷ xs) [] = false
same_bytes (x ∷ xs) (y ∷ ys) = nat_eq x y && same_bytes xs ys

pub length-to_bytes : (n value : ℕ) → length (to_bytes n value) ≡ n
unfolding to_bytes
length-to_bytes zero value = refl
length-to_bytes (suc n) value = ap suc (length-to_bytes n (value / 256))

pub to_bytes-IsByte : (n value : ℕ) → All IsByte (to_bytes n value)
unfolding to_bytes
to_bytes-IsByte zero value = tt
to_bytes-IsByte (suc n) value = (omega arith, to_bytes-IsByte n (value / 256))

pub length-xor_bytes :
    (xs ys : List ℕ) → length xs ≤ length ys → length (xor_bytes xs ys) ≡ length xs
unfolding xor_bytes
length-xor_bytes [] ys le = refl
length-xor_bytes (x ∷ xs) [] le = absurd (omega arith)
length-xor_bytes (x ∷ xs) (y ∷ ys) le = ap suc (length-xor_bytes xs ys (omega arith))

pub xor_bytes_undo : (xs ys : List ℕ) → length xs ≤ length ys → xor_bytes (xor_bytes xs ys) ys ≡ xs
unfolding xor_bytes
xor_bytes_undo [] ys le = refl
xor_bytes_undo (x ∷ xs) [] le = absurd (omega arith)
xor_bytes_undo (x ∷ xs) (y ∷ ys) le = rw (bit_xor_undo x y, xor_bytes_undo xs ys (omega arith)) refl

pub same_bytes_refl : (xs : List ℕ) → same_bytes xs xs ≡ true
unfolding same_bytes
same_bytes_refl [] = refl
same_bytes_refl (x ∷ xs) = ground (arith, same_bytes_refl xs)

pub same_bytes→eq : (xs ys : List ℕ) → same_bytes xs ys ≡ true → xs ≡ ys
unfolding same_bytes
same_bytes→eq [] [] h = refl
same_bytes→eq [] (y ∷ ys) h = cc
same_bytes→eq (x ∷ xs) [] h = cc
same_bytes→eq (x ∷ xs) (y ∷ ys) h = ground (arith, same_bytes→eq xs ys)
