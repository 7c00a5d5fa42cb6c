-- ===== src/Etr/Block.antt =====
-- A block of the key stream has 64 bytes.
use Prim.Native.Nat.{◌*◌}
use asc_orchestrator_v.Base.{
  ℕ, zero, suc, ◌≡◌, refl, sym, ◌∙◌, ap, Bool, true, false, not, List, [], ◌∷◌, arith, length,
  nat_eq, leb, if◌then◌else◌,
}
use asc_orchestrator_v.Base.Slices.{drop, length-append, length-set}
use asc_orchestrator_v.Etr.Bytes.{to_bytes, length-to_bytes}
use asc_orchestrator_v.Etr.Chacha.{
  EtrError, bad_key, bad_nonce, bad_counter, ok, err, add_word, mix_word, quarter_round,
  double_round, rounds, words, add_words, pack_words, initial_state, chacha20_block,
}

length-quarter_round : (s : List ℕ) (a b c d : ℕ) → length (quarter_round s a b c d) ≡ length s
unfolding quarter_round add_word mix_word
length-quarter_round s a b c d = simp length-set refl

length-double_round : (s : List ℕ) → length (double_round s) ≡ length s
unfolding double_round
length-double_round s = simp length-quarter_round refl

length-rounds : (n : ℕ) (s : List ℕ) → length (rounds n s) ≡ length s
unfolding rounds
length-rounds zero s = refl
length-rounds (suc n) s = length-rounds n (double_round s) ∙ length-double_round s

length-words : (n : ℕ) (xs : List ℕ) → length (words n xs) ≡ n
unfolding words
length-words zero xs = refl
length-words (suc n) xs = ap suc (length-words n (drop 4 xs))

length-initial_state :
    (key : List ℕ) (counter : ℕ) (nonce : List ℕ) → length (initial_state key counter nonce) ≡ 16
unfolding initial_state
length-initial_state key counter nonce = omega (
  arith,
  length-append {A = ℕ} (words 8 key) (counter ∷ words 3 nonce),
  length-words 8 key,
  length-words 3 nonce,
)

length-add_words : (xs ys : List ℕ) → length xs ≡ length ys → length (add_words xs ys) ≡ length xs
unfolding add_words
length-add_words [] ys e = refl
length-add_words (x ∷ xs) [] e = absurd (omega arith)
length-add_words (x ∷ xs) (y ∷ ys) e = ap suc (length-add_words xs ys (omega arith))

length-pack_words : (ws : List ℕ) → length (pack_words ws) ≡ 4 * length ws
unfolding pack_words
length-pack_words [] = refl
length-pack_words (w ∷ ws) = omega (
  arith,
  length-append {A = ℕ} (to_bytes 4 w) (pack_words ws),
  length-to_bytes 4 w,
  length-pack_words ws,
)

-- Three guards that answer with an error: a result means that they all let it pass.
guarded :
    (a b c : Bool) (x y : EtrError) (z : EtrError) (out block : List ℕ)
    → (if a then err x else if b then err y else if c then err z else ok out) ≡ ok block
    → out ≡ block
guarded true b c x y z out block h = cc
guarded false true c x y z out block h = cc
guarded false false true x y z out block h = cc
guarded false false false x y z out block h = cc

length-key_stream :
    (n : ℕ) (state : List ℕ)
    → length state ≡ 16
    → length (pack_words (add_words (rounds n state) state)) ≡ 64
length-key_stream n state e = omega (
  arith,
  length-pack_words (add_words (rounds n state) state),
  length-add_words (rounds n state) state (length-rounds n state),
  length-rounds n state,
)

-- A valid key, nonce and counter give a block of 64 bytes.
pub length-chacha20_block :
    (key : List ℕ) (counter : ℕ) (nonce block : List ℕ)
    → chacha20_block key counter nonce ≡ ok block
    → length block ≡ 64
unfolding chacha20_block
length-chacha20_block key counter nonce block h =
    ap length (
      sym (
        guarded (not (nat_eq (length key) 32)) (not (nat_eq (length nonce) 12))
          (not (leb counter 0xFFFF_FFFF)) bad_key bad_nonce bad_counter
          (pack_words (
            add_words (rounds 10 (initial_state key counter nonce))
              (initial_state key counter nonce)))
          block h))
    ∙ length-key_stream 10 (initial_state key counter nonce)
        (length-initial_state key counter nonce)
