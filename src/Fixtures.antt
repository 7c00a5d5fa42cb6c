-- ===== src/Fixtures.antt =====
-- Concrete data for the tests of the modules: two tasks, a mission, its database, and a world that
-- is a clock.
use asc_orchestrator_v.Base.{
  ℕ, suc, String, true, false, Option, none, some, List, [], ◌∷◌, nat_eq, ◌==◌, if◌then◌else◌,
}
use asc_orchestrator_v.Models.{Task, TaskStatus, Mission, MissionSpec}
use asc_orchestrator_v.Models.ExitCode.{ℤ, pos}
use asc_orchestrator_v.State.{TaskRow, EventRow, Db}
use asc_orchestrator_v.Verifier.{Shell, exited}
use asc_orchestrator_v.Repo.{Git}
use asc_orchestrator_v.Lock.{Process, absent}
use asc_orchestrator_v.Driver.{Config}
use asc_orchestrator_v.Driver.Effects.{Env, Drive, finished}

abbrev pub task_of : String → TaskStatus → List String → Option (List String) → Task
task_of id status depends_on commit_paths = record {
  id = id;
  title = "Task";
  prompt = "Do it";
  status = status;
  depends_on = depends_on;
  command = none;
  commands = [];
  metadata = [];
  started_at = none;
  completed_at = none;
  commit_sha = none;
  executor = some "shell";
  working_directory = none;
  model = none;
  execution_timeout = none;
  commit_paths = commit_paths;
}

abbrev pub task_a : Task
task_a = task_of "a" TaskStatus.pending [] none

abbrev pub done_a : Task
done_a = task_of "a" TaskStatus.completed [] none

abbrev pub task_b : Task
task_b = task_of "b" TaskStatus.pending ("a" ∷ []) (some ("b.py" ∷ []))

-- A task of the mission "m" that has failed once.
abbrev pub row_a : TaskRow
row_a = record {
  id = "a";
  mission_id = "m";
  title = "Old";
  status = TaskStatus.interrupted;
  depends_on = [];
  prompt = "";
  command = none;
  commands_json = none;
  attempt_count = some 1;
  commit_sha = none;
  started_at = some 1;
  completed_at = none;
  exit_code = some (pos 2);
  updated_at = 1;
  working_directory = none;
  executor = none;
  model = none;
  execution_timeout = none;
  commit_paths_json = none;
  metadata = none;
}

abbrev pub mission_m : Mission
mission_m = record {
  id = "m";
  goal = "Old goal";
  status = "RUNNING";
  created_at = 1;
  updated_at = 1;
  executor = none;
  working_directory = none;
  model = none;
  execution_timeout = none;
  verification_timeout = none;
  max_attempts = none;
}

abbrev pub spec_m : MissionSpec
spec_m = record {
  id = "m";
  goal = "New goal";
  tasks = task_a ∷ task_b ∷ [];
  defaults = record {
    max_attempts = 3;
    execution_timeout = 600;
    verification_timeout = 300;
    executor = "omp";
    working_directory = none;
    model = none;
    system_changes = "";
  };
  executor = none;
  working_directory = none;
  model = none;
  execution_timeout = none;
  verification_timeout = none;
  system_changes = "";
}

abbrev pub event_at : String → ℕ → EventRow
event_at id time = record {
  id = id;
  mission_id = some "m";
  task_id = none;
  event_type = "TASK_READY";
  payload = [];
  timestamp = time;
}

abbrev pub empty_db : Db
empty_db = record { missions = []; tasks = []; attempts = []; events = [] }

abbrev pub db_a : Db
db_a = record {
  missions = mission_m ∷ [];
  tasks = row_a ∷ [];
  attempts = [];
  events = event_at "late" 9 ∷ event_at "early" 4 ∷ event_at "middle" 6 ∷ [];
}

-- Process 7 of a machine on which the processes 7 and 8 run.
abbrev pub seven : Process
seven = record { getpid = 7; user = "user"; alive = λ n. nat_eq n 7 }

abbrev pub eight : Process
eight = record { getpid = 8; user = "user"; alive = λ n. nat_eq n 7 }

-- Every command ends with 0 but "false".
abbrev pub exit_of : String → ℤ
exit_of command = if command == "false" then pos 1 else pos 0

abbrev pub shell_of : Shell ℕ
shell_of = record {
  path_exists = λ p w. true;
  run = λ command cwd limit w. (exited (exit_of command) "out" "", 1, suc w);
}

-- A clean repository: each action only takes time.
abbrev pub git_of : Git ℕ
git_of = record {
  is_git_repo = λ path w. true;
  root_dir = λ path w. path;
  porcelain = λ path w. some [];
  exists = λ path f w. true;
  is_file = λ path f w. true;
  add = λ path f w. suc w;
  rm_cached = λ path f w. suc w;
  commit = λ path message w. (true, suc w);
  head = λ path w. "c0ffee";
  unlink = λ path f w. suc w;
  checkout = λ path f w. suc w;
}

-- An executor whose runs all end with this exit code.
abbrev pub env_of : ℤ → Env ℕ
env_of exit = record {
  clock = λ w. (w, suc w);
  new_id = λ w. ("id", suc w);
  call = λ l e w. (false, w);
  execute = λ adapter task context w. (
    finished (record { exit_code = exit; stdout = ""; stderr = ""; duration = 1; log_path = none }),
    w ∷ [],
    suc w,
  );
  processes = shell_of;
  git = git_of;
  omp_model = none;
}

abbrev pub config_m : Config
config_m = record {
  mission_id = some "m";
  executor = "omp";
  working_directory = none;
  spec_working_directory = none;
  repository = ".";
  model = none;
  execution_timeout = 600;
  verification_timeout = 300;
  max_attempts = 3;
  listeners = [];
  process = seven;
}

abbrev pub drive_a : Drive ℕ
drive_a = record { db = db_a; lock_file = absent; world = 10 }
