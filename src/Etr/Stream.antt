-- ===== src/Etr/Stream.antt =====
-- The stream cipher is its own inverse, and keeps the length.
use asc_orchestrator_v.Base.{
  ℕ, zero, suc, ◌+◌, ◌≤◌, ◌≡◌, refl, ◌∙◌, ap, subst, ◌⊎◌, inl, inr, List, [], ◌∷◌, ◌++◌, arith,
  length,
}
use asc_orchestrator_v.Base.Slices.{
  take, drop, length-append, length-drop, take-append, drop-append, take-drop, length-take-le,
  take_full,
}
use asc_orchestrator_v.Etr.Bytes.{xor_bytes, length-xor_bytes, xor_bytes_undo}
use asc_orchestrator_v.Etr.Chacha.{
  EtrError, Result, ok, err, chacha20_block, extend, xor_blocks, chacha20_xor,
}
use asc_orchestrator_v.Etr.Block.{length-chacha20_block}

pub Result-cases :
    {A : Type 0} (r : Result A) → ((a : A) × (r ≡ ok a)) ⊎ ((e : EtrError) × (r ≡ err e))
Result-cases (ok a) = inl (a, refl)
Result-cases (err e) = inr (e, refl)

-- One turn of the loop, with the rest of the loop done.
module _ (key : List ℕ) (counter : ℕ) (nonce : List ℕ) where
  turn :
      (fuel b : ℕ) (bs block rest : List ℕ)
      → chacha20_block key counter nonce ≡ ok block
      → xor_blocks fuel key (counter + 1) nonce (drop 64 (b ∷ bs)) ≡ ok rest
      → xor_blocks (suc fuel) key counter nonce (b ∷ bs)
        ≡ ok (xor_bytes (take 64 (b ∷ bs)) block ++ rest)
  unfolding xor_blocks
  turn fuel b bs block rest e r = rw (e, xor_blocks, r) refl

-- Deciphering with the same key stream, and the length of what is enciphered.
record Undone (fuel : ℕ) (key : List ℕ) (counter : ℕ) (nonce plain out : List ℕ) : Type 0 where
  same_length : length out ≡ length plain
  back : xor_blocks fuel key counter nonce out ≡ ok plain

empty_list : (xs : List ℕ) → length xs ≡ 0 → xs ≡ []
empty_list [] e = refl
empty_list (x ∷ xs) e = absurd (omega arith)

-- What one turn gives back, for a block and a rest that are given back.
undo_turn :
    (fuel : ℕ) (key : List ℕ) (counter : ℕ) (nonce : List ℕ) (b : ℕ) (bs block rest : List ℕ)
    → chacha20_block key counter nonce ≡ ok block
    → Undone fuel key (counter + 1) nonce (drop 64 (b ∷ bs)) rest
    → Undone (suc fuel) key counter nonce (b ∷ bs) (xor_bytes (take 64 (b ∷ bs)) block ++ rest)
undo_turn fuel key counter nonce b bs block rest e u =
    go (xor_bytes (take 64 (b ∷ bs)) block) (length-xor_bytes chunk block fits)
      (xor_bytes_undo chunk block fits)
  where
    chunk : List ℕ
    chunk = take 64 (b ∷ bs)

    fits : length chunk ≤ length block
    fits =
        omega (
          arith,
          length-take-le {A = ℕ} 64 (b ∷ bs),
          length-chacha20_block key counter nonce block e,
        )

    rest_is : drop 64 (b ∷ bs) ≡ [] → rest ≡ []
    rest_is n = empty_list rest (u.same_length ∙ ap length n)

    apart : (out : List ℕ) → length out ≡ length chunk → (length out ≡ 64) ⊎ (rest ≡ [])
    apart out l = elim (take_full 64 (b ∷ bs)) [ inl f ↦ inl (l ∙ f) | inr n ↦ inr (rest_is n) ]

    go :
        (out : List ℕ)
        → length out ≡ length chunk
        → xor_bytes out block ≡ chunk
        → Undone (suc fuel) key counter nonce (b ∷ bs) (out ++ rest)
    go [] l x = absurd (omega (arith, l))
    go (o ∷ os) l x =
        let small : length (o ∷ os) ≤ 64 = omega (arith, l, length-take-le {A = ℕ} 64 (b ∷ bs)) in
        let front = take-append 64 (o ∷ os) rest small (apart (o ∷ os) l) in
        let behind = drop-append 64 (o ∷ os) rest small (apart (o ∷ os) l) in
        let pieces : xor_bytes (take 64 (o ∷ (os ++ rest))) block ++ drop 63 bs ≡ b ∷ bs =
          rw (front, x) (take-drop 64 (b ∷ bs)) in
        record {
          same_length = omega (
            arith,
            l,
            u.same_length,
            length-append {A = ℕ} (o ∷ os) rest,
            length-append {A = ℕ} chunk (drop 64 (b ∷ bs)),
            ap length (take-drop 64 (b ∷ bs)),
          );
          back =
              turn key counter nonce fuel o (os ++ rest) block (drop 63 bs) e (rw behind u.back)
              ∙ ap ok pieces;
        }

-- Of an extension that gives a result: the rest gave one.
extend_parts :
    (front out : List ℕ) (r : Result (List ℕ))
    → extend front r ≡ ok out
    → (rest : List ℕ) × (r ≡ ok rest) × (front ++ rest ≡ out)
extend_parts front out (ok rest) h = (rest, refl, cc)
extend_parts front out (err e) h = cc

undo_blocks :
    (fuel : ℕ) (key : List ℕ) (counter : ℕ) (nonce plain out : List ℕ)
    → length plain ≤ fuel
    → xor_blocks fuel key counter nonce plain ≡ ok out
    → Undone fuel key counter nonce plain out
unfolding xor_blocks
undo_blocks fuel key counter nonce [] out le h =
    let none_left : [] ≡ out = cc in
    subst (Undone fuel key counter nonce []) none_left (record { same_length = refl; back = refl })
undo_blocks zero key counter nonce (b ∷ bs) out le h = absurd (omega arith)
undo_blocks (suc fuel) key counter nonce (b ∷ bs) out le h =
    elim (Result-cases (chacha20_block key counter nonce)) [
      | inr (e, bad) ↦ let clash : err e ≡ ok out = rw (bad, xor_blocks) at h in cc
      | inl (block, good) ↦
          let run : extend (xor_bytes (take 64 (b ∷ bs)) block)
                (xor_blocks fuel key (counter + 1) nonce (drop 64 (b ∷ bs)))
              ≡ ok out =
            rw (good, xor_blocks) at h in
          let (rest, r, whole) =
            extend_parts (xor_bytes (take 64 (b ∷ bs)) block) out
              (xor_blocks fuel key (counter + 1) nonce (drop 64 (b ∷ bs))) run in
          let less : length (drop 64 (b ∷ bs)) ≤ fuel =
            omega (arith, length-drop {A = ℕ} 64 (b ∷ bs)) in
          subst (Undone (suc fuel) key counter nonce (b ∷ bs)) whole (
            undo_turn fuel key counter nonce b bs block rest good
              (undo_blocks fuel key (counter + 1) nonce (drop 64 (b ∷ bs)) rest less r))
    ]

-- Enciphering keeps the length, and enciphering the result with the same key, counter and nonce
-- gives back the data, whatever the data are, when it gives a result at all.
pub chacha20_xor_undo :
    (key : List ℕ) (counter : ℕ) (nonce plain out : List ℕ)
    → chacha20_xor key counter nonce plain ≡ ok out
    → (length out ≡ length plain) × (chacha20_xor key counter nonce out ≡ ok plain)
unfolding chacha20_xor
chacha20_xor_undo key counter nonce plain out h =
    let u = undo_blocks (length plain) key counter nonce plain out (omega arith) h in
    (u.same_length, rw u.same_length u.back)
