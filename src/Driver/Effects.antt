-- ===== src/Driver/Effects.antt =====
-- What the methods of the driver change, and how they end. The database and the lock file are kept
-- apart from the rest of the world, which the parameter `Env` acts on.
use asc_orchestrator_v.Base.{ℕ, String, Bool, Option, List}
use asc_orchestrator_v.Models.{Task}
use asc_orchestrator_v.Models.ExitCode.{ℤ}
use asc_orchestrator_v.State.{Db}
use asc_orchestrator_v.Verifier.{Shell}
use asc_orchestrator_v.Repo.{Git}
use asc_orchestrator_v.Lock.{LockFile, LockInfo}
use asc_orchestrator_v.Events.{Event}

-- `build_adapter`: the adapters of src/asc/adapters, by the name of the executor.
pub data Adapter : Type 0 where
  omp shell mock : Adapter

-- The attributes of an adapter's result that the driver reads.
pub record AdapterResult : Type 0 where
  pub exit_code : ℤ
  pub stdout : String
  pub stderr : String
  pub duration : ℕ
  pub log_path : Option String

-- The dictionary `context`, less the callback.
pub record Context : Type 0 where
  pub working_directory : String
  pub model : Option String
  pub execution_timeout : ℕ

pub data Exception : Type 0 where
  adapter_error : String → Exception
  unknown_executor : String → Exception
  outside_commit_paths : List String → Exception
  lock_held : LockInfo → Exception
  preflight_failed : List String → Exception

-- How `adapter.execute` ends.
pub data Executed : Type 0 where
  finished : AdapterResult → Executed
  raised : String → Executed

-- The world outside the program: the clock, fresh ids, the listeners, the adapters, the processes
-- and git. `execute` also gives the times at which it called the heartbeat callback.
pub record Env (W : Type 0) : Type 0 where
  pub clock : W → ℕ × W
  pub new_id : W → String × W
  pub call : ℕ → Event → W → Bool × W
  pub execute : Adapter → Task → Context → W → Executed × List ℕ × W
  pub processes : Shell W
  pub git : Git W
  pub omp_model : Option String

pub record Drive (W : Type 0) : Type 0 where
  pub db : Db
  pub lock_file : LockFile
  pub world : W

-- A method returns or raises; `unfinished` is a loop of the model that has run out of fuel.
pub data Result (A : Type 0) : Type 0 where
  returned : A → Result A
  raise : Exception → Result A
  unfinished : Result A

abbrev pub Action : Type 0 → Type 0 → Type 0
Action W A = Drive W → Result A × Drive W

module _ {W A B : Type 0} where
  abbrev pub and_then : Result A → (A → Action W B) → Action W B
  and_then (returned a) f d = f a d
  and_then (raise e) f d = (raise e, d)
  and_then unfinished f d = (unfinished, d)

  infixl 5 ◌>>=◌
  abbrev pub ◌>>=◌ : Action W A → (A → Action W B) → Action W B
  ◌>>=◌ m f d = let (r, d') = m d in and_then r f d'
