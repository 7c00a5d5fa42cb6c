-- ===== src/Repo/Tests.antt =====
-- The theorems on src/asc/repo.py at a concrete tree of files.
use asc_orchestrator_v.Base.{
  ◌≡◌, refl, ap, ◌∙◌, ◌≢◌, ◌==◌, eq_iff, str_eq→eq, Bool, true, false, Bool-cases, String, Option,
  none, some, List, [], ◌∷◌, ◌++◌, inl, inr, Member, contains, if◌then◌else◌,
}
use asc_orchestrator_v.Repo.{
  Git, rollback_attempt, roll_back, roll_back_all, get_porcelain_status, parse_status, sorted_set,
  insert_sorted,
}
use asc_orchestrator_v.Repo.Undo.{IsTree, Undone, rollback_attempt-Undone}
use asc_orchestrator_v.Repo.Porcelain.{
  paths_of, line_path, renamed_path, after_arrow, until_arrow, strip, strip_left, strip_right, skip,
  is_space, is_short, index_state, tree_state,
}
use asc_orchestrator_v.Base.Text.{first_chars}

-- A tree of files by their text: what git would restore is the text "head".
abbrev Tree : Type 0
Tree = String → Option String

abbrev is_there : Option String → Bool
is_there none = false
is_there (some text) = true

abbrev put : String → Option String → Tree → Tree
put f text v g = if f == g then text else v g

abbrev git_tree : Git Tree
git_tree = record {
  is_git_repo = λ path v. true;
  root_dir = λ path v. path;
  porcelain = λ path v. some (" M a.py" ∷ "?? b.py" ∷ []);
  exists = λ path f v. is_there (v f);
  is_file = λ path f v. is_there (v f);
  add = λ path f v. v;
  rm_cached = λ path f v. v;
  commit = λ path message v. (true, v);
  head = λ path v. "c0ffee";
  unlink = λ path f v. put f none v;
  checkout = λ path f v. put f (some "head") v;
}

-- HEAD has the one file that was there before the attempt.
abbrev InHead : String → Tree → Type 0
InHead f v = f ≡ "a.py"

abbrev AsHead : String → Tree → Type 0
AsHead f v = v f ≡ some "head"

put_self : (f : String) (text : Option String) (v : Tree) → put f text v f ≡ text
put_self f text v = let same : f == f ≡ true = (eq_iff f f).1 refl in rw same refl

put_other : (g f : String) (text : Option String) (v : Tree) → g ≢ f → put g text v f ≡ v f
put_other g f text v n = elim (Bool-cases (g == f)) [
  | inl e ↦ absurd (n (str_eq→eq g f e))
  | inr e ↦ rw e refl
]

tree_laws : IsTree git_tree "." InHead AsHead
tree_laws = record {
  file_exists = λ f v h. h;
  deletes = λ f v h. ap is_there (put_self f none v);
  restores = λ f v t. put_self f (some "head") v;
  unlink_file = λ g f v n. ap is_there (put_other g f none v n);
  unlink_tracked = λ g f v t. t;
  checkout_tracked = λ g f v t. t;
  checkout_file = λ g f v t n. ap is_there (put_other g f (some "head") v n);
  unlink_other = λ g f v n h. put_other g f none v n ∙ h;
  checkout_other = λ g f v t n h. put_other g f (some "head") v n ∙ h;
}

abbrev edited : Tree
edited f = some "edited"

abbrev attempt : List String
attempt = "b.py" ∷ "a.py" ∷ []

a_modified :
    contains "a.py" (
      (get_porcelain_status git_tree "." edited).modified
      ++ (get_porcelain_status git_tree "." edited).staged)
    ≡ true
unfolding get_porcelain_status parse_status paths_of sorted_set insert_sorted line_path renamed_path
    after_arrow until_arrow strip strip_left strip_right skip is_space is_short index_state
    tree_state first_chars
a_modified = refl

b_listed :
    contains "b.py" (get_porcelain_status git_tree "." edited).untracked ≡ false
    → InHead "b.py" edited
unfolding get_porcelain_status parse_status paths_of sorted_set insert_sorted line_path renamed_path
    after_arrow until_arrow strip strip_left strip_right skip is_space is_short index_state
    tree_state first_chars
b_listed h = cc

rollback_attempt-Undone_example :
    let after = rollback_attempt git_tree "." attempt edited in
    Undone git_tree "." InHead AsHead tree_laws
      (contains "a.py" (get_porcelain_status git_tree "." edited).untracked)
      "a.py"
      after
    × ((g : String)
        → ¬ Member g attempt
        → git_tree.is_file "." g after ≡ git_tree.is_file "." g edited)
rollback_attempt-Undone_example =
    rollback_attempt-Undone git_tree "." InHead AsHead tree_laws "a.py" attempt edited refl
      (λ n c. b_listed n, (λ n c. refl, tt)) (inr (inl refl)) refl (inr a_modified)

-- The rollback acts: the new file is deleted, and the old one is as it was.
rollback_run :
    let after = rollback_attempt git_tree "." attempt edited in
    (after "a.py" ≡ some "head") × (after "b.py" ≡ none) × (after "c.py" ≡ some "edited")
unfolding rollback_attempt roll_back_all roll_back get_porcelain_status parse_status paths_of
    sorted_set insert_sorted line_path renamed_path after_arrow until_arrow strip strip_left
    strip_right skip is_space is_short index_state tree_state first_chars
rollback_run = (refl, refl, refl)

-- A rename counts under its new name, and a deletion in the index also as deleted.
parse_status_run :
    parse_status ("R  a.py -> b.py" ∷ " M c d.py" ∷ "?? e.py " ∷ "D  f.py" ∷ "x" ∷ []) ≡ record {
      staged = "b.py" ∷ "f.py" ∷ [];
      modified = "c d.py" ∷ [];
      untracked = "e.py" ∷ [];
      deleted = "f.py" ∷ [];
    }
unfolding parse_status paths_of sorted_set insert_sorted line_path renamed_path after_arrow
    until_arrow strip strip_left strip_right skip is_space is_short index_state tree_state
    first_chars
parse_status_run = refl
