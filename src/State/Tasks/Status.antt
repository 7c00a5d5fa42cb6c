-- ===== src/State/Tasks/Status.antt =====
-- src/asc/state.py: `update_task_status` and `increment_attempt_count`.
use asc_orchestrator_v.Base.{ℕ, ◌+◌, String, Option, none, some}
use asc_orchestrator_v.Models.{Task, TaskStatus}
use asc_orchestrator_v.Models.ExitCode.{ℤ}
use asc_orchestrator_v.State.{Db, TaskRow, update_where, fetch_one}
use asc_orchestrator_v.State.Tasks.{scoped}

-- `task: Union[Task, str]`, the latter with the argument `status`.
pub data StatusTarget : Type 0 where
  of_task : Task → StatusTarget
  of_id : String → Option TaskStatus → StatusTarget

abbrev pub target_id : StatusTarget → String
target_id (of_task t) = t.id
target_id (of_id id _) = id

-- `status or "PENDING"`
abbrev pub target_status : StatusTarget → TaskStatus
target_status (of_task t) = t.status
target_status (of_id _ (some s)) = s
target_status (of_id _ none) = TaskStatus.pending

-- The optional arguments of `update_task_status`.
pub record StatusFields : Type 0 where
  pub started_at : Option ℕ
  pub completed_at : Option ℕ
  pub exit_code : Option ℤ
  pub commit_sha : Option String

abbrev pub no_fields : StatusFields
no_fields = record { started_at = none; completed_at = none; exit_code = none; commit_sha = none }

-- A column is in the UPDATE only if its argument is not `None`.
abbrev pub given_or {ℓ} : {A : Type ℓ} → Option A → Option A → Option A
given_or none old = old
given_or (some v) old = some v

unfoldable pub set_status : ℕ → TaskStatus → StatusFields → TaskRow → TaskRow
set_status now status fields r = record r {
  status = status;
  updated_at = now;
  started_at = given_or fields.started_at r.started_at;
  completed_at = given_or fields.completed_at r.completed_at;
  exit_code = given_or fields.exit_code r.exit_code;
  commit_sha = given_or fields.commit_sha r.commit_sha;
}

unfoldable pub update_task_status : ℕ → StatusTarget → StatusFields → Option String → Db → Db
update_task_status now target fields mission_id db = record db {
  tasks =
      update_where (scoped mission_id (target_id target))
        (set_status now (target_status target) fields) db.tasks;
}

-- `COALESCE(attempt_count, 0)`
abbrev pub coalesce : Option ℕ → ℕ
coalesce none = 0
coalesce (some n) = n

unfoldable pub bump : TaskRow → TaskRow
bump r = record r { attempt_count = some (coalesce r.attempt_count + 1) }

-- The count of the row that was selected, or 1 where there is none.
abbrev pub count_of : Option TaskRow → ℕ
count_of none = 1
count_of (some r) = elim r.attempt_count [ some n ↦ n | none ↦ 1 ]

unfoldable pub increment_attempt_count : String → Option String → Db → ℕ × Db
increment_attempt_count task_id mission_id db =
    let rows = update_where (scoped mission_id task_id) bump db.tasks in
    (count_of (fetch_one (scoped mission_id task_id) rows), record db { tasks = rows })
