-- ===== src/Repo/Clean.antt =====
-- A repository is clean exactly when it has no dirty files.
use Prim.Native.Nat.{Ordering}
use Prim.Native.String.{compare}
use asc_orchestrator_v.Base.{
  String, ◌≡◌, refl, sym, ◌∙◌, true, not, ◌||◌, List, [], ◌∷◌, ◌++◌, nonempty,
}
use asc_orchestrator_v.Repo.{
  GitStatus, Git, is_clean_status, insert_sorted, sorted_set, all_dirty, has_changes, is_clean,
  get_dirty_files, get_porcelain_status,
}

insert_sorted-nonempty : (s : String) (ts : List String) → nonempty (insert_sorted s ts) ≡ true
unfolding insert_sorted
insert_sorted-nonempty s [] = refl
insert_sorted-nonempty s (t ∷ ts) = split (compare s t)
  where
    split :
        (o : Ordering)
        → nonempty (elim o [
          | Ordering.lt ↦ s ∷ t ∷ ts
          | Ordering.eq ↦ t ∷ ts
          | Ordering.gt ↦ t ∷ insert_sorted s ts
        ])
          ≡ true
    split Ordering.lt = refl
    split Ordering.eq = refl
    split Ordering.gt = refl

nonempty-sorted_set : (ss : List String) → nonempty (sorted_set ss) ≡ nonempty ss
unfolding sorted_set
nonempty-sorted_set [] = refl
nonempty-sorted_set (s ∷ ss) = insert_sorted-nonempty s (sorted_set ss)

clean_status : (s : GitStatus) → not (is_clean_status s) ≡ nonempty (all_dirty s)
unfolding is_clean_status all_dirty
clean_status s =
    split s.staged s.modified s.untracked s.deleted
    ∙ sym (nonempty-sorted_set (s.staged ++ s.modified ++ s.untracked ++ s.deleted))
  where
    split :
        (a b c d : List String)
        → not (not (nonempty a || nonempty b || nonempty c || nonempty d))
          ≡ nonempty (a ++ b ++ c ++ d)
    split (x ∷ a) b c d = refl
    split [] (x ∷ b) c d = refl
    split [] [] (x ∷ c) d = refl
    split [] [] [] (x ∷ d) = refl
    split [] [] [] [] = refl

-- A repository has changes exactly when the list of its dirty files, as it is reported and as it
-- is staged, is not empty.
pub has_changes-nonempty :
    {W : Type 0} (git : Git W) (path : String) (w : W)
    → has_changes git path w ≡ nonempty (get_dirty_files git path w)
unfolding has_changes is_clean get_dirty_files
has_changes-nonempty git path w = clean_status (get_porcelain_status git path w)
