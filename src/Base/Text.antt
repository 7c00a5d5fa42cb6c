-- ===== src/Base/Text.antt =====
-- Python's f-strings and `join`, the decimal digits of a number, and `lower` on ASCII letters.
use Prim.Native.Nat.{ℕ, zero, suc, ◌-◌, ◌/◌, ◌%◌}
use Prim.Native.Char.{Char, code}
use Prim.Native.String.{String, ◌++◌}
use mathlib.Core.Path.{◌≡◌, refl}
use mathlib.Core.Bool.{◌&&◌}
use mathlib.Core.Option.{Option, none, some}
use mathlib.Core.List.{List, [], ◌∷◌}
use text.Mathlib.Text.{char_at?}
use asc_orchestrator_v.Base.Tests.{if◌then◌else◌, ltb, leb, nat_eq}

unfoldable pub concat_texts : List String → String
concat_texts [] = ""
concat_texts (s ∷ ss) = s ++ concat_texts ss

-- `"\n".join(lines)`
unfoldable pub join_lines : List String → String
join_lines [] = ""
join_lines (s ∷ []) = s
join_lines (s ∷ t ∷ ss) = s ++ "\n" ++ join_lines (t ∷ ss)

digit : ℕ → String
digit n =
    if nat_eq n 0
    then "0"
    else if nat_eq n 1
    then "1"
    else if nat_eq n 2
    then "2"
    else if nat_eq n 3
    then "3"
    else if nat_eq n 4
    then "4"
    else if nat_eq n 5
    then "5"
    else if nat_eq n 6
    then "6"
    else if nat_eq n 7
    then "7"
    else if nat_eq n 8
    then "8"
    else "9"

-- A number below the fuel has fewer digits than the fuel.
show_fuel : ℕ → ℕ → String
unfolding digit
show_fuel zero n = ""
show_fuel (suc fuel) n =
    let rest = show_fuel fuel (n / 10) in if ltb n 10 then digit n else rest ++ digit (n % 10)

-- `str(n)`
unfoldable pub show : ℕ → String
unfolding show_fuel
show n = show_fuel (suc n) n

-- `s[:n]`
unfoldable pub first_chars : ℕ → String → String
first_chars zero s = String.[]
first_chars (suc n) String.[] = String.[]
first_chars (suc n) (String.◌∷◌ c s) = String.◌∷◌ c (first_chars n s)

quoted : List String → String
quoted [] = ""
quoted (s ∷ []) = "'" ++ s ++ "'"
quoted (s ∷ t ∷ ss) = "'" ++ s ++ "', " ++ quoted (t ∷ ss)

-- `str(xs)` for a list of texts that need no escapes
unfoldable pub show_texts : List String → String
unfolding quoted
show_texts ss = "[" ++ quoted ss ++ "]"

abbrev char_or : Option Char → Char → Char
char_or none c = c
char_or (some d) c = d

lower_char : Char → Char
lower_char c =
    if leb b'A' (code c) && leb (code c) b'Z'
    then char_or (char_at? "abcdefghijklmnopqrstuvwxyz" (code c - b'A')) c
    else c

-- `s.lower()`
unfoldable pub lower : String → String
unfolding lower_char
lower String.[] = String.[]
lower (String.◌∷◌ c s) = String.◌∷◌ (lower_char c) (lower s)

lower_mixed : lower "OmP-2" ≡ "omp-2"
unfolding lower
lower_mixed = refl

show_ten : concat_texts ("a" ∷ show 305 ∷ "s" ∷ []) ≡ "a305s"
unfolding concat_texts show
show_ten = refl
