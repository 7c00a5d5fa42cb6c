-- ===== src/State.antt =====
-- src/asc/state.py: the four tables of the database. A JSON column holds the value that it
-- encodes, and rows stand in the order of their rowid. SQLite itself is not modelled: an UPDATE
-- changes each row that its WHERE clause selects, and an INSERT adds a row at the end.
pub mod Tasks
pub mod Missions
pub mod Attempts
pub mod Events
use asc_orchestrator_v.Base.{ℕ, String, Bool, Option, none, some, List, [], ◌∷◌, if◌then◌else◌}
use asc_orchestrator_v.Base.Dict.{Dict}
use asc_orchestrator_v.Models.{TaskStatus, VerificationCommand, Mission, AttemptRecord}
use asc_orchestrator_v.Models.ExitCode.{ℤ}

-- A row of the table `tasks`, whose primary key is (mission_id, id).
pub record TaskRow : Type 0 where
  pub id : String
  pub mission_id : String
  pub title : String
  pub status : TaskStatus
  pub depends_on : List String
  pub prompt : String
  pub command : Option String
  pub commands_json : Option (List VerificationCommand)
  pub attempt_count : Option ℕ
  pub commit_sha : Option String
  pub started_at : Option ℕ
  pub completed_at : Option ℕ
  pub exit_code : Option ℤ
  pub updated_at : ℕ
  pub working_directory : Option String
  pub executor : Option String
  pub model : Option String
  pub execution_timeout : Option ℕ
  pub commit_paths_json : Option (List String)
  pub metadata : Option (Dict ℕ)

-- A value of an event's payload.
pub data PayloadValue : Type 0 where
  nothing : PayloadValue
  text : String → PayloadValue
  number : ℕ → PayloadValue
  code : ℤ → PayloadValue
  texts : List String → PayloadValue

-- A row of the table `events`.
pub record EventRow : Type 0 where
  pub id : String
  pub mission_id : Option String
  pub task_id : Option String
  pub event_type : String
  pub payload : Dict PayloadValue
  pub timestamp : ℕ

pub record Db : Type 0 where
  pub missions : List Mission
  pub tasks : List TaskRow
  pub attempts : List AttemptRecord
  pub events : List EventRow

-- `UPDATE … SET change WHERE test`
unfoldable pub update_where {ℓ} : {A : Type ℓ} → (A → Bool) → (A → A) → List A → List A
update_where test change [] = []
update_where test change (r ∷ rs) = (if test r then change r else r) ∷ update_where test change rs

-- `SELECT … WHERE test`, then `fetchone`
unfoldable pub fetch_one {ℓ} : {A : Type ℓ} → (A → Bool) → List A → Option A
fetch_one test [] = none
fetch_one test (r ∷ rs) = if test r then some r else fetch_one test rs
