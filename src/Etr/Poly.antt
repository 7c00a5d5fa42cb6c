-- ===== src/Etr/Poly.antt =====
-- src/asc_orchestrator/etr.py: the Poly1305 tag of a message, and its sixteen bytes.
use Prim.Native.Nat.{◌*◌, ◌%◌, ◌^◌, bit_and}
use asc_orchestrator_v.Base.{
  ℕ, zero, suc, ◌+◌, ◌-◌, ◌≡◌, Bool, true, false, not, List, [], ◌∷◌, ◌++◌, All, length, nat_eq,
  if◌then◌else◌,
}
use asc_orchestrator_v.Base.Slices.{take, drop}
use asc_orchestrator_v.Etr.Bytes.{from_bytes, to_bytes, IsByte, length-to_bytes, to_bytes-IsByte}
use asc_orchestrator_v.Etr.Chacha.{EtrError, bad_key, Result, ok, err}

abbrev pub poly1305_mask : ℕ
poly1305_mask = 0x0FFFFFFC0FFFFFFC0FFFFFFC0FFFFFFF

abbrev pub poly1305_prime : ℕ
poly1305_prime = 2 ^ 130 - 5

-- The loop over the chunks of sixteen bytes, with the byte one after each.
unfoldable pub accumulate : ℕ → ℕ → ℕ → List ℕ → ℕ
unfolding from_bytes
accumulate fuel r acc [] = acc
accumulate zero r acc (b ∷ bs) = acc
accumulate (suc fuel) r acc (b ∷ bs) =
    accumulate fuel r ((acc + from_bytes (take 16 (b ∷ bs) ++ (1 ∷ []))) * r % poly1305_prime)
      (drop 16 (b ∷ bs))

unfoldable pub poly1305 : List ℕ → List ℕ → Result (List ℕ)
unfolding accumulate from_bytes to_bytes
poly1305 key message =
    let r = bit_and (from_bytes (take 16 key)) poly1305_mask in
    let s = from_bytes (take 16 (drop 16 key)) in
    let acc = accumulate (length message) r 0 message in
    if not (nat_eq (length key) 32) then err bad_key else ok (to_bytes 16 ((acc + s) % 2 ^ 128))

-- A guard that answers with an error, and a list of sixteen bytes.
sixteen :
    (a : Bool) (x : EtrError) (n : ℕ) (tag : List ℕ)
    → (if a then err x else ok (to_bytes 16 n)) ≡ ok tag
    → (length tag ≡ 16) × All IsByte tag
sixteen true x n tag h = cc
sixteen false x n tag h =
    let same : to_bytes 16 n ≡ tag = cc in rw (← same) (length-to_bytes 16 n, to_bytes-IsByte 16 n)

-- A tag has sixteen bytes, each below 256, whatever the key and the message.
pub poly1305-AllIsByte :
    (key message tag : List ℕ) → poly1305 key message ≡ ok tag → (length tag ≡ 16) × All IsByte tag
unfolding poly1305
poly1305-AllIsByte key message tag h =
    let acc =
      accumulate (length message) (bit_and (from_bytes (take 16 key)) poly1305_mask) 0 message in
    sixteen (not (nat_eq (length key) 32)) bad_key
      ((acc + from_bytes (take 16 (drop 16 key))) % 2 ^ 128) tag h
