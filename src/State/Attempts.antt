-- ===== src/State/Attempts.antt =====
-- src/asc/state.py: `record_attempt`, called with a record or with keywords, and `get_attempts`.
use asc_orchestrator_v.Base.{
  ℕ, String, Bool, false, not, ◌&&◌, ◌==◌, Option, none, some, List, [], ◌∷◌, ◌++◌, select,
  if◌then◌else◌, ltb,
}
use asc_orchestrator_v.Base.Truthy.{truthy, or_default, or_number_default}
use asc_orchestrator_v.Models.{AttemptRecord, TaskStatus}
use asc_orchestrator_v.Models.ExitCode.{ℤ, pos}
use asc_orchestrator_v.State.{Db}

-- The keywords of `record_attempt`; one that is not given is `none`.
pub record AttemptKeywords : Type 0 where
  pub id : Option String
  pub task_id : Option String
  pub attempt_number : Option ℕ
  pub status : Option TaskStatus
  pub exit_code : Option ℤ
  pub stdout : Option String
  pub stderr : Option String
  pub timestamp : Option ℕ
  pub mission_id : Option String
  pub duration : Option ℕ
  pub log_path : Option String

pub data AttemptArgs : Type 0 where
  of_record : AttemptRecord → AttemptArgs
  of_keywords : AttemptKeywords → AttemptArgs

abbrev or_else {ℓ} : {A : Type ℓ} → Option A → A → A
or_else none d = d
or_else (some a) d = a

abbrev or_nothing : Option String → Option String
or_nothing s = if truthy s then s else none

-- The row of an attempt. `new_id` is the text that is built from the task, the number and a fresh
-- uuid, and `now` is the clock's reading.
unfoldable pub attempt_row : String → ℕ → AttemptArgs → AttemptRecord
attempt_row new_id now (of_record a) = record a { id = if a.id == "" then new_id else a.id }
attempt_row new_id now (of_keywords k) = record {
  id = or_default k.id new_id;
  task_id = or_default k.task_id "";
  attempt_number = or_number_default k.attempt_number 1;
  status = or_else k.status TaskStatus.pending;
  exit_code = or_else k.exit_code (pos 0);
  stdout = or_default k.stdout "";
  stderr = or_default k.stderr "";
  timestamp = or_number_default k.timestamp now;
  mission_id = or_nothing k.mission_id;
  duration = or_else k.duration 0;
  log_path = k.log_path;
}

-- `INSERT OR REPLACE`: a row of the same id is deleted first.
unfoldable pub record_attempt : String → ℕ → AttemptArgs → Db → Db
record_attempt new_id now args db =
    let row = attempt_row new_id now args in
    record db { attempts = select (λ a. not (a.id == row.id)) db.attempts ++ row ∷ [] }

abbrev pub of_attempt : Option String → String → AttemptRecord → Bool
of_attempt none task_id a = a.task_id == task_id
of_attempt (some m) task_id a =
    if truthy (some m)
    then (elim a.mission_id [ none ↦ false | some n ↦ n == m ]) && (a.task_id == task_id)
    else a.task_id == task_id

-- `ORDER BY attempt_number ASC`
unfoldable pub insert_attempt : AttemptRecord → List AttemptRecord → List AttemptRecord
insert_attempt a [] = a ∷ []
insert_attempt a (b ∷ bs) =
    if ltb b.attempt_number a.attempt_number then b ∷ insert_attempt a bs else a ∷ b ∷ bs

unfoldable pub by_number : List AttemptRecord → List AttemptRecord
unfolding insert_attempt
by_number [] = []
by_number (a ∷ rest) = insert_attempt a (by_number rest)

unfoldable pub get_attempts : String → Option String → Db → List AttemptRecord
unfolding by_number
get_attempts task_id mission_id db = by_number (select (of_attempt mission_id task_id) db.attempts)
