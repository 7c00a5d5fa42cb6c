-- ===== src/State/Tasks.antt =====
-- src/asc/state.py: `save_task`, `get_tasks`, `get_task`, `update_task_status`,
-- `increment_attempt_count` and `_row_to_task`. The clock's reading is the argument `now`.
pub mod Status
pub mod Sql
pub mod Save
pub mod Update
pub mod Keys
pub mod Touch
mod Tests
use asc_orchestrator_v.Base.{
  ℕ, ◌+◌, String, Bool, true, false, ◌&&◌, ◌==◌, Option, none, some, List, [], ◌∷◌, ◌++◌, map,
  if◌then◌else◌, select, head_or_none, ltb, nonempty,
}
use asc_orchestrator_v.Base.Dict.{Dict, lookup}
use asc_orchestrator_v.Base.Truthy.{truthy}
use asc_orchestrator_v.Models.{Task, TaskStatus, VerificationCommand, post_init}
use asc_orchestrator_v.Models.ExitCode.{ℤ}
use asc_orchestrator_v.State.{Db, TaskRow, update_where, fetch_one}

-- `WHERE mission_id = ? AND id = ?`
abbrev pub has_key : String → String → TaskRow → Bool
has_key mission_id id r = (r.mission_id == mission_id) && (r.id == id)

-- `WHERE id = ?`
abbrev pub has_id : String → TaskRow → Bool
has_id id r = r.id == id

-- The WHERE clause of a method whose mission is optional: `if mission_id:`.
abbrev pub scoped : Option String → String → TaskRow → Bool
scoped none id = has_id id
scoped (some mission_id) id = if truthy (some mission_id) then has_key mission_id id else has_id id

abbrev pub command_text : Option VerificationCommand → Option String
command_text none = none
command_text (some c) = some c.command

-- `json.dumps(xs) if xs else None`
abbrev pub json_list {ℓ} : {A : Type ℓ} → List A → Option (List A)
json_list [] = none
json_list (x ∷ xs) = some (x ∷ xs)

abbrev pub json_paths : Option (List String) → Option (List String)
json_paths none = none
json_paths (some paths) = json_list paths

abbrev pub initial_count : Dict ℕ → ℕ
initial_count metadata = elim (lookup "attempt_count" metadata) [ none ↦ 0 | some n ↦ n ]

-- The UPDATE of `save_task`: the definition of the task, and none of its progress.
unfoldable pub redefine : ℕ → Task → TaskRow → TaskRow
redefine now task r = record r {
  title = task.title;
  depends_on = task.depends_on;
  prompt = task.prompt;
  command = command_text task.command;
  commands_json = json_list task.commands;
  updated_at = now;
  working_directory = task.working_directory;
  executor = task.executor;
  model = task.model;
  execution_timeout = task.execution_timeout;
  commit_paths_json = json_paths task.commit_paths;
  metadata = json_list task.metadata;
}

-- The INSERT of `save_task`.
unfoldable pub new_row : ℕ → Task → String → TaskRow
new_row now task mission_id = record {
  id = task.id;
  mission_id = mission_id;
  title = task.title;
  status = task.status;
  depends_on = task.depends_on;
  prompt = task.prompt;
  command = command_text task.command;
  commands_json = json_list task.commands;
  attempt_count = some (initial_count task.metadata);
  commit_sha = task.commit_sha;
  started_at = task.started_at;
  completed_at = task.completed_at;
  exit_code = none;
  updated_at = now;
  working_directory = task.working_directory;
  executor = task.executor;
  model = task.model;
  execution_timeout = task.execution_timeout;
  commit_paths_json = json_paths task.commit_paths;
  metadata = json_list task.metadata;
}

unfoldable pub save_rows : ℕ → Task → String → List TaskRow → List TaskRow
save_rows now task mission_id rows = elim (fetch_one (has_key mission_id task.id) rows) [
  | some _ ↦ update_where (has_key mission_id task.id) (redefine now task) rows
  | none ↦ rows ++ new_row now task mission_id ∷ []
]

unfoldable pub save_task : ℕ → Task → String → Db → Db
unfolding save_rows
save_task now task mission_id db = record db { tasks = save_rows now task mission_id db.tasks }

abbrev pub given_list {ℓ} : {A : Type ℓ} → Option (List A) → List A
given_list none = []
given_list (some xs) = xs

-- `commands_json`, or else the one command of the column `command`.
row_commands : TaskRow → List VerificationCommand
row_commands r = elim (given_list r.commands_json) [
  | c ∷ cs ↦ c ∷ cs
  | [] ↦ (elim r.command [
    | none ↦ []
    | some text ↦
        if truthy (some text)
        then record { command = text; cwd = none; timeout = none } ∷ []
        else []
  ])
]

unfoldable pub row_to_task : Option TaskRow → Task
unfolding row_commands post_init
row_to_task none = post_init (record {
  id = "unknown";
  title = "unknown";
  prompt = "";
  status = TaskStatus.pending;
  depends_on = [];
  command = none;
  commands = [];
  metadata = [];
  started_at = none;
  completed_at = none;
  commit_sha = none;
  executor = none;
  working_directory = none;
  model = none;
  execution_timeout = none;
  commit_paths = none;
})
row_to_task (some r) = post_init (record {
  id = r.id;
  title = r.title;
  prompt = r.prompt;
  status = r.status;
  depends_on = r.depends_on;
  command = head_or_none (row_commands r);
  commands = row_commands r;
  metadata = given_list r.metadata;
  started_at = r.started_at;
  completed_at = r.completed_at;
  commit_sha = r.commit_sha;
  executor = r.executor;
  working_directory = r.working_directory;
  model = r.model;
  execution_timeout = r.execution_timeout;
  commit_paths = r.commit_paths_json;
})

unfoldable pub get_tasks : String → Db → List Task
get_tasks mission_id db =
    map (λ r. row_to_task (some r)) (select (λ r. r.mission_id == mission_id) db.tasks)

-- `ORDER BY updated_at DESC LIMIT 1`; of rows with equal times the first is taken.
unfoldable pub latest : Option TaskRow → List TaskRow → Option TaskRow
latest best [] = best
latest none (r ∷ rs) = latest (some r) rs
latest (some b) (r ∷ rs) = latest (some (if ltb b.updated_at r.updated_at then r else b)) rs

abbrev task_of : Option TaskRow → Option Task
task_of none = none
task_of (some r) = some (row_to_task (some r))

unfoldable pub get_task : String → Option String → Db → Option Task
unfolding latest
get_task task_id mission_id db =
    if truthy mission_id
    then task_of (fetch_one (scoped mission_id task_id) db.tasks)
    else task_of (latest none (select (has_id task_id) db.tasks))
