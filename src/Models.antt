-- ===== src/Models.antt =====
-- src/asc/models.py: the records that the runtime passes around. Times are natural numbers of
-- clock ticks, and an exit code is an integer. Metadata holds natural numbers, which are what
-- the program reads from it.
pub mod ExitCode
use asc_orchestrator_v.Base.{
  ℕ, String, Bool, true, false, ◌&&◌, Option, none, some, List, [], ◌∷◌, head_or_none, not,
}
use asc_orchestrator_v.Base.Dict.{Dict}
use asc_orchestrator_v.Models.ExitCode.{ℤ, is_zero}

pub data TaskStatus : Type 0 where
  pending running completed failed blocked cancelled interrupted : TaskStatus

pub data SchedulerState : Type 0 where
  runnable running complete blocked : SchedulerState

-- `status == TaskStatus.COMPLETED`, and so for the others
abbrev pub is_completed : TaskStatus → Bool
is_completed TaskStatus.completed = true
is_completed _ = false

abbrev pub is_running : TaskStatus → Bool
is_running TaskStatus.running = true
is_running _ = false

-- `status in (TaskStatus.PENDING, TaskStatus.INTERRUPTED)`
abbrev pub is_waiting : TaskStatus → Bool
is_waiting TaskStatus.pending = true
is_waiting TaskStatus.interrupted = true
is_waiting _ = false

pub record VerificationCommand : Type 0 where
  pub command : String
  pub cwd : Option String
  pub timeout : Option ℕ

-- One entry of `VerificationResult.results`.
pub record CommandResult : Type 0 where
  pub command : String
  pub exit_code : ℤ
  pub stdout : String
  pub stderr : String
  pub duration : ℕ

pub record VerificationResult : Type 0 where
  pub command : VerificationCommand
  pub exit_code : ℤ
  pub stdout : String
  pub stderr : String
  pub duration : ℕ
  pub results : List CommandResult

-- The field that `__post_init__` sets.
abbrev pub success : VerificationResult → Bool
success r = is_zero r.exit_code

pub record Task : Type 0 where
  pub id : String
  pub title : String
  pub prompt : String
  pub status : TaskStatus
  pub depends_on : List String
  pub command : Option VerificationCommand
  pub commands : List VerificationCommand
  pub metadata : Dict ℕ
  pub started_at : Option ℕ
  pub completed_at : Option ℕ
  pub commit_sha : Option String
  pub executor : Option String
  pub working_directory : Option String
  pub model : Option String
  pub execution_timeout : Option ℕ
  pub commit_paths : Option (List String)

-- `Task.__post_init__` keeps `command` and `commands` in step.
sync_commands :
    Option VerificationCommand
    → List VerificationCommand
    → Option VerificationCommand × List VerificationCommand
sync_commands (some c) [] = (some c, c ∷ [])
sync_commands none (c ∷ cs) = (some c, c ∷ cs)
sync_commands command commands = (command, commands)

unfoldable pub post_init : Task → Task
unfolding sync_commands
post_init t =
    let (command, commands) = sync_commands t.command t.commands in
    record t { command = command; commands = commands }

pub record MissionDefaults : Type 0 where
  pub max_attempts : ℕ
  pub execution_timeout : ℕ
  pub verification_timeout : ℕ
  pub executor : String
  pub working_directory : Option String
  pub model : Option String
  pub system_changes : String

pub record MissionSpec : Type 0 where
  pub id : String
  pub goal : String
  pub tasks : List Task
  pub defaults : MissionDefaults
  pub executor : Option String
  pub working_directory : Option String
  pub model : Option String
  pub execution_timeout : Option ℕ
  pub verification_timeout : Option ℕ
  pub system_changes : String

pub record Mission : Type 0 where
  pub id : String
  pub goal : String
  pub status : String
  pub created_at : ℕ
  pub updated_at : ℕ
  pub executor : Option String
  pub working_directory : Option String
  pub model : Option String
  pub execution_timeout : Option ℕ
  pub verification_timeout : Option ℕ
  pub max_attempts : Option ℕ

pub record AttemptRecord : Type 0 where
  pub id : String
  pub task_id : String
  pub attempt_number : ℕ
  pub status : TaskStatus
  pub exit_code : ℤ
  pub stdout : String
  pub stderr : String
  pub timestamp : ℕ
  pub mission_id : Option String
  pub duration : ℕ
  pub log_path : Option String
