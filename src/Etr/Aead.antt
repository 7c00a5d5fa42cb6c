-- ===== src/Etr/Aead.antt =====
-- src/asc_orchestrator/etr.py: sealing and opening with ChaCha20-Poly1305.
use Prim.Native.Nat.{◌%◌}
use asc_orchestrator_v.Base.{
  ℕ, ◌-◌, ◌≡◌, refl, ◌∙◌, ap, ◌↔◌, inl, inr, not, Option, none, some, List, ◌++◌, length, nat_eq,
  if◌then◌else◌, Bool-cases,
}
use asc_orchestrator_v.Base.Slices.{take, replicate}
use asc_orchestrator_v.Etr.Bytes.{to_bytes, same_bytes, same_bytes_refl, same_bytes→eq}
use asc_orchestrator_v.Etr.Chacha.{Result, ok, err, chacha20_block, chacha20_xor}
use asc_orchestrator_v.Etr.Stream.{chacha20_xor_undo}
use asc_orchestrator_v.Etr.Poly.{poly1305}

-- A call whose exception leaves the caller too.
abbrev pub then_with {ℓ κ} : {A : Type ℓ} {B : Type κ} → Result A → (A → Result B) → Result B
then_with (ok a) f = f a
then_with (err e) f = err e

unfoldable pub pad16 : List ℕ → List ℕ
pad16 bytes =
    let remainder = length bytes % 16 in
    if nat_eq remainder 0 then bytes else bytes ++ replicate (16 - remainder) 0

unfoldable pub mac_data : List ℕ → List ℕ → List ℕ
unfolding pad16 to_bytes
mac_data aad ciphertext =
    pad16 aad ++ (pad16 ciphertext ++ (to_bytes 8 (length aad) ++ to_bytes 8 (length ciphertext)))

unfoldable pub aead_compute_tag : List ℕ → List ℕ → List ℕ → List ℕ → Result (List ℕ)
unfolding chacha20_block poly1305 mac_data
aead_compute_tag key nonce aad ciphertext =
    then_with (chacha20_block key 0 nonce)
      (λ block. poly1305 (take 32 block) (mac_data aad ciphertext))

unfoldable pub aead_seal : List ℕ → List ℕ → List ℕ → List ℕ → Result (List ℕ × List ℕ)
unfolding chacha20_xor aead_compute_tag
aead_seal key nonce aad plaintext = then_with (chacha20_xor key 1 nonce plaintext) (λ ciphertext.
    then_with (aead_compute_tag key nonce aad ciphertext) (λ tag. ok (ciphertext, tag)))

unfoldable pub aead_open : List ℕ → List ℕ → List ℕ → List ℕ → List ℕ → Result (Option (List ℕ))
unfolding chacha20_xor aead_compute_tag same_bytes
aead_open key nonce aad ciphertext tag =
    then_with (aead_compute_tag key nonce aad ciphertext) (λ expected.
      if not (same_bytes expected tag)
      then ok none
      else then_with (chacha20_xor key 1 nonce ciphertext) (λ plaintext. ok (some plaintext)))

-- Of a chain that gives a result: the first call gave one.
then_with_parts :
    {A B : Type 0} (r : Result A) (f : A → Result B) (b : B)
    → then_with r f ≡ ok b
    → (a : A) × (r ≡ ok a) × (f a ≡ ok b)
then_with_parts (ok a) f b h = (a, refl, h)
then_with_parts (err e) f b h = cc

module _ (key nonce aad plaintext ciphertext tag : List ℕ) where
  seal_parts :
      aead_seal key nonce aad plaintext ≡ ok (ciphertext, tag)
      → (chacha20_xor key 1 nonce plaintext ≡ ok ciphertext)
        × (aead_compute_tag key nonce aad ciphertext ≡ ok tag)
  unfolding aead_seal
  seal_parts h =
      let (c, xored, more) =
        then_with_parts (chacha20_xor key 1 nonce plaintext)
          (λ c. then_with (aead_compute_tag key nonce aad c) (λ t. ok (c, t))) (ciphertext, tag)
          h in
      let (t, tagged, last) =
        then_with_parts (aead_compute_tag key nonce aad c) (λ t. ok (c, t)) (ciphertext, tag)
          more in
      let c_is : c ≡ ciphertext = cc in
      let t_is : t ≡ tag = cc in (xored ∙ ap ok c_is, rw (← c_is) (tagged ∙ ap ok t_is))

  open_parts :
      aead_open key nonce aad ciphertext tag ≡ ok (some plaintext)
      → (aead_compute_tag key nonce aad ciphertext ≡ ok tag)
        × (chacha20_xor key 1 nonce ciphertext ≡ ok plaintext)
  unfolding aead_open
  open_parts h =
      let (t, tagged, more) =
        then_with_parts (aead_compute_tag key nonce aad ciphertext)
          (λ expected.
            if not (same_bytes expected tag)
            then ok none
            else then_with (chacha20_xor key 1 nonce ciphertext) (λ p. ok (some p)))
          (some plaintext) h in
      elim (Bool-cases (same_bytes t tag)) [
        | inr differ ↦ let refused : ok none ≡ ok (some plaintext) = rw differ at more in cc
        | inl same ↦
            let t_is : t ≡ tag = same_bytes→eq t tag same in
            let opened : then_with (chacha20_xor key 1 nonce ciphertext) (λ p. ok (some p))
                ≡ ok (some plaintext) =
              rw same at more in
            let (p, xored, last) =
              then_with_parts (chacha20_xor key 1 nonce ciphertext) (λ p. ok (some p))
                (some plaintext) opened in
            let p_is : p ≡ plaintext = cc in (tagged ∙ ap ok t_is, xored ∙ ap ok p_is)
      ]

  -- Opening gives back a plaintext exactly when sealing that plaintext gives the ciphertext and
  -- the tag: what was sealed is opened again, and nothing else is ever opened.
  pub open-seal :
      (aead_open key nonce aad ciphertext tag ≡ ok (some plaintext))
      ↔ (aead_seal key nonce aad plaintext ≡ ok (ciphertext, tag))
  unfolding aead_open aead_seal
  open-seal = (
    λ h.
        let (tagged, xored) = open_parts h in
        let (length_is, back) = chacha20_xor_undo key 1 nonce ciphertext plaintext xored in
        rw (back, tagged) refl,
    λ h.
        let (xored, tagged) = seal_parts h in
        let (length_is, back) = chacha20_xor_undo key 1 nonce plaintext ciphertext xored in
        rw (tagged, same_bytes_refl tag, back) refl,
  )
