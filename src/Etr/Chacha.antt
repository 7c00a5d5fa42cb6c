-- ===== src/Etr/Chacha.antt =====
-- src/asc_orchestrator/etr.py: ChaCha20, from the rotation of a word to the stream cipher.
use Prim.Native.Nat.{◌*◌, ◌/◌, ◌%◌, ◌^◌, bit_or, bit_xor}
use asc_orchestrator_v.Base.{
  ℕ, zero, suc, ◌+◌, ◌-◌, not, List, [], ◌∷◌, ◌++◌, length, nat_eq, leb, if◌then◌else◌,
}
use asc_orchestrator_v.Base.Slices.{take, drop, get_or, set}
use asc_orchestrator_v.Etr.Bytes.{from_bytes, to_bytes, xor_bytes}

-- `EtrError`, by its code.
pub data EtrError : Type 0 where
  bad_key bad_nonce bad_counter : EtrError

pub data Result {ℓ} (A : Type ℓ) : Type ℓ where
  ok : A → Result A
  err : EtrError → Result A

abbrev pub u32 : ℕ
u32 = 2 ^ 32

unfoldable pub rotl32 : ℕ → ℕ → ℕ
rotl32 value bits = bit_or (value * 2 ^ bits) (value / 2 ^ (32 - bits)) % u32

-- `state[i] = (state[i] + state[j]) & 0xFFFFFFFF`
unfoldable pub add_word : List ℕ → ℕ → ℕ → List ℕ
add_word state i j = set state i ((get_or 0 state i + get_or 0 state j) % u32)

-- `state[i] = _rotl32(state[i] ^ state[j], bits)`
unfoldable pub mix_word : List ℕ → ℕ → ℕ → ℕ → List ℕ
unfolding rotl32
mix_word state i j bits = set state i (rotl32 (bit_xor (get_or 0 state i) (get_or 0 state j)) bits)

unfoldable pub quarter_round : List ℕ → ℕ → ℕ → ℕ → ℕ → List ℕ
unfolding add_word mix_word
quarter_round s a b c d =
    let s₁ = mix_word (add_word s a b) d a 16 in
    let s₂ = mix_word (add_word s₁ c d) b c 12 in
    let s₃ = mix_word (add_word s₂ a b) d a 8 in mix_word (add_word s₃ c d) b c 7

-- Four column rounds and four diagonal rounds.
unfoldable pub double_round : List ℕ → List ℕ
unfolding quarter_round
double_round s =
    let s₁ = quarter_round s 0 4 8 12 in
    let s₂ = quarter_round s₁ 1 5 9 13 in
    let s₃ = quarter_round s₂ 2 6 10 14 in
    let s₄ = quarter_round s₃ 3 7 11 15 in
    let s₅ = quarter_round s₄ 0 5 10 15 in
    let s₆ = quarter_round s₅ 1 6 11 12 in
    let s₇ = quarter_round s₆ 2 7 8 13 in quarter_round s₇ 3 4 9 14

unfoldable pub rounds : ℕ → List ℕ → List ℕ
unfolding double_round
rounds zero s = s
rounds (suc n) s = rounds n (double_round s)

-- `int.from_bytes(xs[i : i + 4], "little") for i in range(0, 4 * count, 4)`
unfoldable pub words : ℕ → List ℕ → List ℕ
unfolding from_bytes
words zero xs = []
words (suc count) xs = from_bytes (take 4 xs) ∷ words count (drop 4 xs)

-- `working[i] = (working[i] + state[i]) & 0xFFFFFFFF`
unfoldable pub add_words : List ℕ → List ℕ → List ℕ
add_words [] ys = []
add_words (x ∷ xs) [] = []
add_words (x ∷ xs) (y ∷ ys) = (x + y) % u32 ∷ add_words xs ys

unfoldable pub pack_words : List ℕ → List ℕ
unfolding to_bytes
pack_words [] = []
pack_words (w ∷ ws) = to_bytes 4 w ++ pack_words ws

abbrev pub constants : List ℕ
constants = 0x61707865 ∷ 0x3320646E ∷ 0x79622D32 ∷ 0x6B206574 ∷ []

unfoldable pub initial_state : List ℕ → ℕ → List ℕ → List ℕ
unfolding words
initial_state key counter nonce = constants ++ (words 8 key ++ (counter ∷ words 3 nonce))

unfoldable pub chacha20_block : List ℕ → ℕ → List ℕ → Result (List ℕ)
unfolding initial_state rounds add_words pack_words
chacha20_block key counter nonce =
    let state = initial_state key counter nonce in
    if not (nat_eq (length key) 32)
    then err bad_key
    else if not (nat_eq (length nonce) 12)
    then err bad_nonce
    else if not (leb counter 0xFFFF_FFFF)
    then err bad_counter
    else ok (pack_words (add_words (rounds 10 state) state))

-- `out.extend(…)`, unless a later block raises.
abbrev pub extend : List ℕ → Result (List ℕ) → Result (List ℕ)
extend out (ok rest) = ok (out ++ rest)
extend out (err e) = err e

-- The loop over the offsets, by the data that is left. Each turn takes a byte at least.
unfoldable pub xor_blocks : ℕ → List ℕ → ℕ → List ℕ → List ℕ → Result (List ℕ)
unfolding chacha20_block xor_bytes
xor_blocks fuel key counter nonce [] = ok []
xor_blocks zero key counter nonce (b ∷ bs) = ok []
xor_blocks (suc fuel) key counter nonce (b ∷ bs) = elim (chacha20_block key counter nonce) [
  | err e ↦ err e
  | ok block ↦
      extend (xor_bytes (take 64 (b ∷ bs)) block)
        (xor_blocks fuel key (counter + 1) nonce (drop 64 (b ∷ bs)))
]

unfoldable pub chacha20_xor : List ℕ → ℕ → List ℕ → List ℕ → Result (List ℕ)
unfolding xor_blocks
chacha20_xor key counter nonce data' = xor_blocks (length data') key counter nonce data'
