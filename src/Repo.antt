-- ===== src/Repo.antt =====
-- src/asc/repo.py: the status of a repository, scoped commits, and the rollback of one attempt.
-- A repository is named by its path. What git and the file system do is the parameter `Git`, over
-- the state `W` of the world.
pub mod Porcelain
pub mod Clean
pub mod Scope
pub mod Undo
mod Tests
use Prim.Native.Nat.{Ordering}
use Prim.Native.String.{compare}
use asc_orchestrator_v.Base.{
  ℕ, String, Bool, true, false, not, ◌&&◌, ◌||◌, ◌==◌, Option, none, some, List, [], ◌∷◌, ◌++◌,
  select, nonempty, contains, if◌then◌else◌,
}
use asc_orchestrator_v.Repo.Porcelain.{paths_of, is_staged, is_modified, is_deleted, is_untracked}

pub record GitStatus : Type 0 where
  pub staged : List String
  pub modified : List String
  pub untracked : List String
  pub deleted : List String

unfoldable pub is_clean_status : GitStatus → Bool
is_clean_status s =
    not (nonempty s.staged || nonempty s.modified || nonempty s.untracked || nonempty s.deleted)

-- `sorted(set(xs))`: each text goes to its place, once.
unfoldable pub insert_sorted : String → List String → List String
insert_sorted s [] = s ∷ []
insert_sorted s (t ∷ ts) =
    let rest = insert_sorted s ts in
    elim (compare s t) [ Ordering.lt ↦ s ∷ t ∷ ts | Ordering.eq ↦ t ∷ ts | Ordering.gt ↦ t ∷ rest ]

unfoldable pub sorted_set : List String → List String
unfolding insert_sorted
sorted_set [] = []
sorted_set (s ∷ ss) = insert_sorted s (sorted_set ss)

unfoldable pub all_dirty : GitStatus → List String
all_dirty s = sorted_set (s.staged ++ s.modified ++ s.untracked ++ s.deleted)

-- `sorted(xs - ys)`
unfoldable pub sorted_difference : List String → List String → List String
sorted_difference xs ys = sorted_set (select (λ x. not (contains x ys)) xs)

unfoldable pub no_status : GitStatus
no_status = record { staged = []; modified = []; untracked = []; deleted = [] }

-- The status that the printed lines stand for.
unfoldable pub parse_status : List String → GitStatus
unfolding sorted_set paths_of
parse_status lines = record {
  staged = sorted_set (paths_of is_staged lines);
  modified = sorted_set (paths_of is_modified lines);
  untracked = sorted_set (paths_of is_untracked lines);
  deleted = sorted_set (paths_of is_deleted lines);
}

-- git and the file system: the first argument is the repository's path, the second a file in it.
pub record Git (W : Type 0) : Type 0 where
  pub is_git_repo : String → W → Bool
  pub root_dir : String → W → String
  -- the lines that `git status` prints, unless it fails
  pub porcelain : String → W → Option (List String)
  pub exists : String → String → W → Bool
  pub is_file : String → String → W → Bool
  pub add : String → String → W → W
  pub rm_cached : String → String → W → W
  pub commit : String → String → W → Bool × W
  pub head : String → W → String
  -- `unlink` and the attempt to remove the parent directory
  pub unlink : String → String → W → W
  pub checkout : String → String → W → W

pub data CommitResult : Type 0 where
  committed : Option String → CommitResult
  outside_scope : List String → CommitResult

module _ {W : Type 0} (git : Git W) where
  unfoldable pub get_porcelain_status : String → W → GitStatus
  get_porcelain_status path w =
      if git.is_git_repo path w
      then (elim (git.porcelain path w) [ some lines ↦ parse_status lines | none ↦ no_status ])
      else no_status

  unfoldable pub is_clean : String → W → Bool
  unfolding get_porcelain_status
  is_clean path w = is_clean_status (get_porcelain_status path w)

  unfoldable pub get_dirty_files : String → W → List String
  unfolding get_porcelain_status
  get_dirty_files path w = all_dirty (get_porcelain_status path w)

  unfoldable pub has_changes : String → W → Bool
  unfolding is_clean
  has_changes path w = not (is_clean path w)

  unfoldable pub get_root_dir : String → W → String
  get_root_dir path w = if git.is_git_repo path w then git.root_dir path w else path

  unfoldable pub get_head_commit : String → W → String
  get_head_commit path w = if git.is_git_repo path w then git.head path w else ""

  -- The loop that stages the files; one that is gone is taken out of the index.
  unfoldable pub stage : String → List String → W → W
  stage path [] w = w
  stage path (f ∷ fs) w =
      stage path fs (if git.exists path f w then git.add path f w else git.rm_cached path f w)

  unfoldable pub disallowed : Option (List String) → List String → List String
  disallowed none files = []
  disallowed (some allowed) files = select (λ f. not (contains f allowed)) files

  abbrev paths_or_dirty : String → Option (List String) → W → List String
  paths_or_dirty path (some (f ∷ fs)) w = f ∷ fs
  paths_or_dirty path _ w = get_dirty_files path w

  unfoldable pub finish_commit : String → String → List String → W → CommitResult × W
  unfolding stage get_head_commit
  finish_commit path message files w =
      let (done, w') = git.commit path message (stage path files w) in
      (committed (if done then some (get_head_commit path w') else none), w')

  unfoldable pub commit_scoped :
      String → String → Option (List String) → Option (List String) → W → CommitResult × W
  unfolding disallowed finish_commit get_dirty_files
  commit_scoped path message paths commit_paths_filter w =
      let files = paths_or_dirty path paths w in
      let outside = disallowed commit_paths_filter files in
      if not (git.is_git_repo path w)
      then (committed none, w)
      else if not (nonempty files)
      then (committed none, w)
      else if nonempty outside
      then (outside_scope outside, w)
      else finish_commit path message files w

  -- One path of `rollback_attempt`.
  unfoldable pub roll_back : String → List String → List String → String → W → W
  roll_back path untracked changed f w =
      if not (git.exists path f w)
      then w
      else if contains f untracked
      then (if git.is_file path f w then git.unlink path f w else w)
      else if contains f changed
      then git.checkout path f w
      else w

  unfoldable pub roll_back_all : String → List String → List String → List String → W → W
  unfolding roll_back
  roll_back_all path untracked changed [] w = w
  roll_back_all path untracked changed (f ∷ fs) w =
      roll_back_all path untracked changed fs (roll_back path untracked changed f w)

  unfoldable pub rollback_attempt : String → List String → W → W
  unfolding roll_back_all
  rollback_attempt path delta_paths w =
      let status = get_porcelain_status path w in
      if not (git.is_git_repo path w) || not (nonempty delta_paths)
      then w
      else roll_back_all path status.untracked (status.modified ++ status.staged) delta_paths w
