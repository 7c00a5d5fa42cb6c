-- ===== src/Etr/Tests.antt =====
-- The encrypted transport at concrete inputs.
use asc_orchestrator_v.Base.{ℕ, ◌≡◌, refl, ◌↔◌, List, [], ◌∷◌, arith, some}
use asc_orchestrator_v.Base.Slices.{replicate}
use asc_orchestrator_v.Etr.Chacha.{ok, quarter_round}
use asc_orchestrator_v.Etr.Aead.{aead_seal, aead_open, open-seal}
use asc_orchestrator_v.Etr.Total.{Sealed, aead_seal-Sealed}

abbrev key : List ℕ
key = replicate 32 7

abbrev nonce : List ℕ
nonce = replicate 12 0

abbrev hello : List ℕ
hello = 104 ∷ 101 ∷ 108 ∷ 108 ∷ 111 ∷ []

-- RFC 8439, section 2.1.1.
quarter_round_vector :
    quarter_round (0x11111111 ∷ 0x01020304 ∷ 0x9B8D6F43 ∷ 0x01234567 ∷ []) 0 1 2 3
    ≡ 0xEA2A92F4 ∷ 0xCB1CF8CE ∷ 0x4581472E ∷ 0x5881C4BB ∷ []
unfolding quarter_round
quarter_round_vector = refl

open-seal_example :
    (aead_open key nonce hello (replicate 5 1) (replicate 16 2) ≡ ok (some hello))
    ↔ (aead_seal key nonce hello hello ≡ ok (replicate 5 1, replicate 16 2))
open-seal_example = open-seal key nonce hello hello (replicate 5 1) (replicate 16 2)

aead_seal-Sealed_example : Sealed key nonce [] hello
aead_seal-Sealed_example = aead_seal-Sealed key nonce [] hello refl refl (omega arith)
