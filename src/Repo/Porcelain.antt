-- ===== src/Repo/Porcelain.antt =====
-- src/asc/repo.py: the lines of `git status --porcelain=v1`, as `get_porcelain_status` reads them.
use Prim.Native.Char.{code}
use asc_orchestrator_v.Base.{
  ℕ, zero, suc, String, Bool, not, ◌&&◌, ◌||◌, ◌==◌, Option, none, some, List, [], ◌∷◌, leb, nat_eq,
  if◌then◌else◌, contains,
}
use asc_orchestrator_v.Base.Text.{first_chars}

-- The characters that `str.strip` takes away.
unfoldable pub is_space : ℕ → Bool
is_space n =
    (leb 9 n && leb n 13)
    || (leb 28 n && leb n 32)
    || nat_eq n 133
    || nat_eq n 160
    || nat_eq n 5760
    || (leb 8192 n && leb n 8202)
    || nat_eq n 8232
    || nat_eq n 8233
    || nat_eq n 8239
    || nat_eq n 8287
    || nat_eq n 12288

unfoldable pub strip_left : String → String
strip_left String.[] = ""
strip_left (String.◌∷◌ c s) =
    let rest = strip_left s in if is_space (code c) then rest else String.◌∷◌ c s

unfoldable pub strip_right : String → String
strip_right String.[] = ""
strip_right (String.◌∷◌ c s) =
    let rest = strip_right s in if (rest == "") && is_space (code c) then "" else String.◌∷◌ c rest

-- `s.strip()`
unfoldable pub strip : String → String
unfolding strip_left strip_right
strip s = strip_right (strip_left s)

-- `s[n:]`
unfoldable pub skip : ℕ → String → String
skip zero s = s
skip (suc n) String.[] = ""
skip (suc n) (String.◌∷◌ c s) = skip n s

-- The text behind the first " -> ", if there is one.
unfoldable pub after_arrow : String → Option String
unfolding skip first_chars
after_arrow String.[] = none
after_arrow (String.◌∷◌ c s) =
    let rest = after_arrow s in
    if first_chars 4 (String.◌∷◌ c s) == " -> " then some (skip 3 s) else rest

-- The text before the first " -> ", or all of it.
unfoldable pub until_arrow : String → String
unfolding first_chars
until_arrow String.[] = ""
until_arrow (String.◌∷◌ c s) =
    let rest = until_arrow s in
    if first_chars 4 (String.◌∷◌ c s) == " -> " then "" else String.◌∷◌ c rest

-- A rename names the file twice: `filepath.split(" -> ")[1].strip()`.
unfoldable pub renamed_path : String → String
unfolding after_arrow until_arrow strip
renamed_path filepath = elim (after_arrow filepath) [
  | none ↦ filepath
  | some rest ↦ strip (until_arrow rest)
]

unfoldable pub line_path : String → String
unfolding skip strip renamed_path
line_path line = renamed_path (strip (skip 3 line))

-- The characters `code[0]` and `code[1]`.
unfoldable pub index_state : String → String
unfolding first_chars
index_state line = first_chars 1 line

unfoldable pub tree_state : String → String
unfolding skip first_chars
tree_state line = first_chars 1 (skip 1 line)

-- `len(line) < 4`
unfoldable pub is_short : String → Bool
unfolding skip
is_short line = skip 3 line == ""

abbrev pub is_staged : String → Bool
is_staged line = contains (index_state line) ("M" ∷ "A" ∷ "D" ∷ "R" ∷ "C" ∷ [])

abbrev pub is_modified : String → Bool
is_modified line = tree_state line == "M"

abbrev pub is_deleted : String → Bool
is_deleted line = (tree_state line == "D") || (index_state line == "D")

abbrev pub is_untracked : String → Bool
is_untracked line = (index_state line == "?") && (tree_state line == "?")

-- The paths of the lines that pass a test; short lines are passed over.
unfoldable pub paths_of : (String → Bool) → List String → List String
paths_of test [] = []
paths_of test (line ∷ lines) =
    if not (is_short line) && test line
    then line_path line ∷ paths_of test lines
    else paths_of test lines
