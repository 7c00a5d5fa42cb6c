-- ===== src/Etr/Total.antt =====
-- Sealing with a key and a nonce of the right lengths gives a result.
use Prim.Native.Nat.{◌*◌, ◌^◌, ◌%◌, bit_and}
use asc_orchestrator_v.Base.{
  ℕ, zero, suc, ◌+◌, ◌-◌, ◌≤◌, ◌≡◌, refl, ap, Bool, false, not, List, [], ◌∷◌, ◌++◌, All, arith,
  length, nat_eq, leb, if◌then◌else◌,
}
use asc_orchestrator_v.Base.Slices.{take, drop, length-drop}
use asc_orchestrator_v.Etr.Bytes.{IsByte, from_bytes, to_bytes, xor_bytes}
use asc_orchestrator_v.Etr.Chacha.{
  EtrError, Result, ok, err, bad_key, bad_nonce, bad_counter, add_words, rounds, pack_words,
  initial_state, chacha20_block, xor_blocks, chacha20_xor,
}
use asc_orchestrator_v.Etr.Block.{length-chacha20_block}
use asc_orchestrator_v.Etr.Stream.{chacha20_xor_undo}
use asc_orchestrator_v.Etr.Poly.{accumulate, poly1305_mask, poly1305, poly1305-AllIsByte}
use asc_orchestrator_v.Etr.Aead.{mac_data, aead_compute_tag, aead_seal}

-- Tests that let a value pass.
known : (n m : ℕ) → n ≡ m → not (nat_eq n m) ≡ false
known n m e = ground arith

counts : (n m : ℕ) → n ≤ m → not (leb n m) ≡ false
counts n m le = ground arith

passes :
    {A : Type 0} (a b c : Bool) (x y z : EtrError) (out : Result A)
    → a ≡ false
    → b ≡ false
    → c ≡ false
    → (if a then err x else if b then err y else if c then err z else out) ≡ out
passes a b c x y z out p q r = rw (p, q, r) refl

chacha20_block_ends :
    (key : List ℕ) (counter : ℕ) (nonce : List ℕ)
    → length key ≡ 32
    → length nonce ≡ 12
    → counter ≤ 0xFFFF_FFFF
    → (block : List ℕ) × (chacha20_block key counter nonce ≡ ok block)
unfolding chacha20_block
chacha20_block_ends key counter nonce k n c = (
  pack_words
      (add_words (rounds 10 (initial_state key counter nonce)) (initial_state key counter nonce)),
  passes (not (nat_eq (length key) 32)) (not (nat_eq (length nonce) 12))
      (not (leb counter 0xFFFF_FFFF)) bad_key bad_nonce bad_counter
      (ok (
        pack_words (
          add_words (rounds 10 (initial_state key counter nonce))
            (initial_state key counter nonce))))
      (known (length key) 32 k) (known (length nonce) 12 n) (counts counter 0xFFFF_FFFF c),
)

xor_blocks_end :
    (fuel : ℕ) (key : List ℕ) (counter : ℕ) (nonce plain : List ℕ)
    → length key ≡ 32
    → length nonce ≡ 12
    → length plain + 64 * counter ≤ 64 * 2 ^ 32
    → length plain ≤ fuel
    → (out : List ℕ) × (xor_blocks fuel key counter nonce plain ≡ ok out)
unfolding xor_blocks
xor_blocks_end fuel key counter nonce [] k n c le = ([], refl)
xor_blocks_end zero key counter nonce (b ∷ bs) k n c le = absurd (omega arith)
xor_blocks_end (suc fuel) key counter nonce (b ∷ bs) k n c le =
    let (block, made) = chacha20_block_ends key counter nonce k n (omega arith) in
    let (rest, more) =
      xor_blocks_end fuel key (counter + 1) nonce (drop 64 (b ∷ bs)) k n
        (omega (arith, length-drop {A = ℕ} 64 (b ∷ bs)))
        (omega (arith, length-drop {A = ℕ} 64 (b ∷ bs))) in
    (xor_bytes (take 64 (b ∷ bs)) block ++ rest, rw (made, xor_blocks, more) refl)

poly1305_ends :
    (key message : List ℕ) → length key ≡ 32 → (tag : List ℕ) × (poly1305 key message ≡ ok tag)
unfolding poly1305
poly1305_ends key message k =
    let acc =
      accumulate (length message) (bit_and (from_bytes (take 16 key)) poly1305_mask) 0 message in
    let tag = to_bytes 16 ((acc + from_bytes (take 16 (drop 16 key))) % 2 ^ 128) in
    (
      tag,
      passes false false (not (nat_eq (length key) 32)) bad_key bad_key bad_key (ok tag) refl refl
          (known (length key) 32 k),
    )

take_short : (n : ℕ) (xs : List ℕ) → n ≤ length xs → length (take n xs) ≡ n
take_short zero xs le = refl
take_short (suc n) [] le = absurd (omega arith)
take_short (suc n) (x ∷ xs) le = ap suc (take_short n xs (omega arith))

pub record Sealed (key nonce aad plaintext : List ℕ) : Type 0 where
  ciphertext : List ℕ
  tag : List ℕ
  sealed : aead_seal key nonce aad plaintext ≡ ok (ciphertext, tag)
  same_length : length ciphertext ≡ length plaintext
  tag_length : length tag ≡ 16
  tag_bytes : All IsByte tag

-- With a key of 32 bytes, a nonce of 12 and a plaintext of at most 2³² - 1 blocks of 64 bytes,
-- sealing gives a ciphertext as long as the plaintext and a tag of sixteen bytes.
pub aead_seal-Sealed :
    (key nonce aad plaintext : List ℕ)
    → length key ≡ 32
    → length nonce ≡ 12
    → length plaintext ≤ 64 * (2 ^ 32 - 1)
    → Sealed key nonce aad plaintext
unfolding aead_seal aead_compute_tag chacha20_xor
aead_seal-Sealed key nonce aad plaintext k n le =
    let (ciphertext, xored) =
      xor_blocks_end (length plaintext) key 1 nonce plaintext k n (omega arith) (omega arith) in
    let (block, made) = chacha20_block_ends key 0 nonce k n (omega arith) in
    let wide : length (take 32 block) ≡ 32 =
      take_short 32 block (omega (arith, length-chacha20_block key 0 nonce block made)) in
    let (tag, tagged) = poly1305_ends (take 32 block) (mac_data aad ciphertext) wide in
    let (sixteen, bytes) =
      poly1305-AllIsByte (take 32 block) (mac_data aad ciphertext) tag tagged in
    let (same, back) = chacha20_xor_undo key 1 nonce plaintext ciphertext xored in
    record {
      ciphertext = ciphertext;
      tag = tag;
      sealed = rw (xored, made, tagged) refl;
      same_length = same;
      tag_length = sixteen;
      tag_bytes = bytes;
    }
