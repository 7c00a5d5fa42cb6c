-- ===== src/State/Tasks/Save.antt =====
-- `save_task`: what it writes, what it keeps, and what `get_task` reads back.
use asc_orchestrator_v.Base.{
  ℕ, String, ◌≡◌, refl, ap, ◌≢◌, sym, ◌∙◌, true, false, eq_iff, Option, none, some, List, [], ◌∷◌,
  ◌++◌, arith, Bool-cases, Option-cases, inl, inr, head_or_none,
}
use asc_orchestrator_v.Base.Truthy.{truthy}
use asc_orchestrator_v.Models.{Task}
use asc_orchestrator_v.State.{Db, TaskRow, fetch_one}
use asc_orchestrator_v.State.Tasks.{
  command_text, has_key, redefine, new_row, save_rows, save_task, get_task, row_to_task,
  row_commands, json_list, json_paths, given_list,
}
use asc_orchestrator_v.State.Tasks.Sql.{
  fetch_one-update_self, fetch_one-update_ne, fetch_one-insert_self, fetch_one-insert_ne,
}

-- The row of a task, by its composite key.
abbrev pub row_of : String → String → Db → Option TaskRow
row_of mission_id id db = fetch_one (has_key mission_id id) db.tasks

pub has_key_refl : (m i : String) (r : TaskRow) → r.mission_id ≡ m → r.id ≡ i → has_key m i r ≡ true
has_key_refl m i r em ei = ground (arith, eq_iff r.mission_id m, eq_iff r.id i)

pub has_key-apart :
    (m i n j : String) (r : TaskRow)
    → ¬ ((m ≡ n) × (i ≡ j))
    → has_key n j r ≡ true
    → has_key m i r ≡ false
has_key-apart m i n j r apart h = elim (Bool-cases (has_key m i r)) [
  | inl e ↦ absurd (
      apart (
        sym ((eq_iff r.mission_id m).0 (ground arith)) ∙ (eq_iff r.mission_id n).0 (ground arith),
        sym ((eq_iff r.id i).0 (ground arith)) ∙ (eq_iff r.id j).0 (ground arith),
      ))
  | inr e ↦ e
]

-- The columns that record how far a task has come.
pub record SameProgress (r s : TaskRow) : Type 0 where
  pub status : s.status ≡ r.status
  pub attempt_count : s.attempt_count ≡ r.attempt_count
  pub commit_sha : s.commit_sha ≡ r.commit_sha
  pub started_at : s.started_at ≡ r.started_at
  pub completed_at : s.completed_at ≡ r.completed_at
  pub exit_code : s.exit_code ≡ r.exit_code

-- The columns that the task's definition gives.
pub record IsDefinedBy (t : Task) (s : TaskRow) : Type 0 where
  pub title : s.title ≡ t.title
  pub depends_on : s.depends_on ≡ t.depends_on
  pub prompt : s.prompt ≡ t.prompt
  pub command : s.command ≡ command_text t.command
  pub working_directory : s.working_directory ≡ t.working_directory
  pub executor : s.executor ≡ t.executor
  pub model : s.model ≡ t.model
  pub execution_timeout : s.execution_timeout ≡ t.execution_timeout
  pub commands : s.commands_json ≡ json_list t.commands
  pub commit_paths : s.commit_paths_json ≡ json_paths t.commit_paths
  pub metadata : s.metadata ≡ json_list t.metadata

save_rows-known :
    (now : ℕ) (t : Task) (m : String) (rows : List TaskRow) (r : TaskRow)
    → fetch_one (has_key m t.id) rows ≡ some r
    → fetch_one (has_key m t.id) (save_rows now t m rows) ≡ some (redefine now t r)
unfolding save_rows
save_rows-known now t m rows r e =
    rw (e, save_rows)
      (fetch_one-update_self (has_key m t.id) (has_key m t.id) (redefine now t) rows
          (λ x. unfold redefine in refl)
        ∙ rw e)

-- Saving a task that is known keeps its status, its attempts, its commit, its times and its exit
-- code, and takes every column of its definition (title, dependencies, prompt, command, commands,
-- directory, executor, model, timeout, commit scope and metadata) from the task that is given.
pub save_task-keeps_progress :
    (now : ℕ) (t : Task) (m : String) (db : Db) (r : TaskRow)
    → row_of m t.id db ≡ some r
    → (s : TaskRow) × (row_of m t.id (save_task now t m db) ≡ some s)
      × SameProgress r s
      × IsDefinedBy t s
unfolding save_task redefine
save_task-keeps_progress now t m db r e =
    (redefine now t r, save_rows-known now t m db.tasks r e, ground arith, ground arith)

-- Saving a task changes no row of another key, so a task id may serve in two missions.
pub save_task-others :
    (now : ℕ) (t : Task) (m n j : String) (db : Db)
    → ¬ ((m ≡ n) × (t.id ≡ j))
    → row_of n j (save_task now t m db) ≡ row_of n j db
unfolding save_task save_rows
save_task-others now t m n j db apart = elim (Option-cases (row_of m t.id db)) [
  | inl e ↦
      rw (e, save_task, save_rows)
        (fetch_one-insert_ne (has_key n j) (new_row now t m) db.tasks (
          unfold new_row in
          has_key-apart n j m t.id (new_row now t m) (λ (em, ei). apart (sym em, sym ei))
            (has_key_refl m t.id (new_row now t m) refl refl)))
  | inr (r, e) ↦
      rw (e, save_task, save_rows)
        (fetch_one-update_ne (has_key m t.id) (has_key n j) (redefine now t) db.tasks
          (λ x h. has_key-apart m t.id n j x apart h) (λ x. unfold redefine in refl))
]

given_json {ℓ} : {A : Type ℓ} (xs : List A) → given_list (json_list xs) ≡ xs
given_json [] = refl
given_json (x ∷ xs) = refl

-- `command` is the first of `commands`, as `__post_init__` leaves a task.
abbrev pub InSync : Task → Type 0
InSync t = t.command ≡ head_or_none t.commands

row_commands-new_row :
    (now : ℕ) (t : Task) (m : String) → InSync t → row_commands (new_row now t m) ≡ t.commands
unfolding row_commands new_row
row_commands-new_row now t m sync = ground arith

-- The task that a new row is read back as.
abbrev pub stored : Task → Task
stored t = record t { commit_paths = json_paths t.commit_paths }

row_to_task-new_row :
    (now : ℕ) (t : Task) (m : String) → InSync t → row_to_task (some (new_row now t m)) ≡ stored t
unfolding row_to_task new_row
row_to_task-new_row now t m sync =
    ground (arith, row_commands-new_row now t m sync, given_json t.metadata)

get_task-save_task :
    (now : ℕ) (t : Task) (m : String) (db : Db)
    → truthy (some m) ≡ true
    → row_of m t.id db ≡ none
    → InSync t
    → get_task t.id (some m) (save_task now t m db) ≡ some (stored t)
unfolding get_task save_task save_rows
get_task-save_task now t m db named absent sync =
    let found : fetch_one (has_key m t.id) (db.tasks ++ new_row now t m ∷ [])
        ≡ some (new_row now t m) =
      (fetch_one-insert_self (has_key m t.id) (new_row now t m) db.tasks absent
        (unfold new_row in has_key_refl m t.id (new_row now t m) refl refl)) in
    ground (arith, named, absent, found, row_to_task-new_row now t m sync)

stored-id : (t : Task) → t.commit_paths ≢ some [] → stored t ≡ t
stored-id t h = elim (Option-cases t.commit_paths) [
  | inl e ↦ ground arith
  | inr (paths, e) ↦ full paths e
]
  where
    full : (paths : List String) → t.commit_paths ≡ some paths → stored t ≡ t
    full [] e = absurd (h e)
    full (p ∷ ps) e = ground arith

-- A task that is saved under a key that is not taken is read back as it was saved, provided that
-- its `command` is the first of its `commands`, the mission's id is not empty, and its commit
-- scope is not the empty list.
pub get_task-save_task_new :
    (now : ℕ) (t : Task) (m : String) (db : Db)
    → truthy (some m) ≡ true
    → row_of m t.id db ≡ none
    → InSync t
    → t.commit_paths ≢ some []
    → get_task t.id (some m) (save_task now t m db) ≡ some t
get_task-save_task_new now t m db named absent sync paths =
    get_task-save_task now t m db named absent sync ∙ ap some (stored-id t paths)

-- A task that is saved under a key that is not taken, whose `command` is the first of its
-- `commands` and whose mission's id is not empty, is read back with no commit scope at all if its
-- commit scope is the empty list: one that may commit nothing becomes one that may commit
-- everything.
pub get_task-save_task_unscoped :
    (now : ℕ) (t : Task) (m : String) (db : Db)
    → truthy (some m) ≡ true
    → row_of m t.id db ≡ none
    → InSync t
    → t.commit_paths ≡ some []
    → (u : Task) × (get_task t.id (some m) (save_task now t m db) ≡ some u)
      × (u.commit_paths ≡ none)
get_task-save_task_unscoped now t m db named absent sync e =
    (stored t, get_task-save_task now t m db named absent sync, ground arith)
