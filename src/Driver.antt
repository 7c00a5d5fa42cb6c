-- ===== src/Driver.antt =====
-- src/asc/driver.py: `MissionDriver`, once it has been constructed. Its attributes are `Config`.
pub mod Effects
pub mod Emit
pub mod Attempt
pub mod Retry
pub mod Complete
pub mod Reconcile
pub mod Run
mod Tests
use asc_orchestrator_v.Base.{
  ℕ, String, Option, none, some, List, [], ◌∷◌, ◌==◌, if◌then◌else◌, Bool, true, false, not, ◌&&◌,
  ◌||◌,
}
use asc_orchestrator_v.Base.Dict.{lookup}
use asc_orchestrator_v.Base.Truthy.{truthy, or_default, or_number_default}
use asc_orchestrator_v.Models.{Task}
use asc_orchestrator_v.Lock.{Process}

-- The attributes of the driver that its methods read.
pub record Config : Type 0 where
  pub mission_id : Option String
  pub executor : String
  pub working_directory : Option String
  pub spec_working_directory : Option String
  -- the path of `self.repository`
  pub repository : String
  pub model : Option String
  pub execution_timeout : ℕ
  pub verification_timeout : ℕ
  pub max_attempts : ℕ
  pub listeners : List ℕ
  pub process : Process

-- `self.mission_id or ""`
abbrev pub mission_key : Config → String
mission_key cfg = or_default cfg.mission_id ""

-- `_get_max_attempts`
unfoldable pub get_max_attempts : Config → Task → ℕ
get_max_attempts cfg task = elim (lookup "max_attempts" task.metadata) [
  | some n ↦ n
  | none ↦ cfg.max_attempts
]

-- The repository of a task: its own directory, the driver's, or the driver's repository.
unfoldable pub task_repo : Config → Task → String
task_repo cfg task =
    if truthy task.working_directory
    then or_default task.working_directory ""
    else if truthy cfg.working_directory && not (or_default cfg.working_directory "" == ".")
    then or_default cfg.working_directory ""
    else cfg.repository
