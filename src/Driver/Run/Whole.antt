-- ===== src/Driver/Run/Whole.antt =====
-- src/asc/driver.py: `run`, around its loop: the lock, the preflight and the `finally`.
pub mod Cleanup
pub mod Ends
use asc_orchestrator_v.Base.{
  ℕ, suc, String, Bool, true, false, not, ◌&&◌, Option, none, some, List, [], ◌∷◌, if◌then◌else◌,
  length,
}
use asc_orchestrator_v.Base.Text.{concat_texts, show, show_texts}
use asc_orchestrator_v.Base.Truthy.{truthy, or_default, or_text}
use asc_orchestrator_v.Models.{SchedulerState}
use asc_orchestrator_v.State.{Db, PayloadValue, text, texts, nothing}
use asc_orchestrator_v.State.Tasks.{get_tasks}
use asc_orchestrator_v.State.Missions.{get_last_mission_id, limit_to}
use asc_orchestrator_v.Lock.{
  LockFile, LockInfo, ProjectLock, Acquired, acquired, lock_conflict, new_lock, acquire, release,
}
use asc_orchestrator_v.Repo.{is_clean, get_dirty_files, get_root_dir}
use asc_orchestrator_v.Events as Events
use asc_orchestrator_v.Events.{mission_started, mission_blocked, lock_acquired, lock_released}
use asc_orchestrator_v.Driver.{Config, mission_key}
use asc_orchestrator_v.Driver.Effects.{
  Env, Drive, Action, Result, returned, raise, unfinished, Adapter, lock_held, preflight_failed,
}
use asc_orchestrator_v.Driver.Emit.{emit}
use asc_orchestrator_v.Driver.Attempt.{text_or_nothing}
use asc_orchestrator_v.Driver.Reconcile.{reconcile_stale_tasks}
use asc_orchestrator_v.Driver.Run.{RunResult, run_loop, set_mission, conclude}

-- The mission that `run` is called with, the driver's, or the last one of the database.
unfoldable pub resolve_mission : Option String → Config → Db → Config
resolve_mission mission_id cfg db =
    let wanted = or_text mission_id cfg.mission_id in
    record cfg { mission_id = if truthy wanted then wanted else get_last_mission_id db }

-- `self.working_directory or self.spec_working_directory`, or else the driver's repository
unfoldable pub target_repo : Config → String
target_repo cfg =
    or_default (or_text cfg.working_directory cfg.spec_working_directory) cfg.repository

module _ {W : Type 0} (cfg : Config) (env : Env W) (own : Adapter) where
  abbrev lock_dir : W → String
  lock_dir w =
      if env.git.is_git_repo (target_repo cfg) w
      then concat_texts (get_root_dir env.git (target_repo cfg) w ∷ "/.git/asc" ∷ [])
      else concat_texts
          (or_default (or_text cfg.working_directory cfg.spec_working_directory) "." ∷ "/.asc" ∷ [])

  abbrev pub start_result : RunResult
  start_result = record {
    mission_id = cfg.mission_id;
    final_status = none;
    tasks_completed = 0;
    tasks_failed = 0;
    tasks_blocked = 0;
    git_commits = [];
  }

  abbrev finish : Result (SchedulerState × RunResult) × Drive W → Result RunResult × Drive W
  finish (returned out, d) = let (r, d') = conclude cfg env own out d in (returned r, d')
  finish (raise e, d) = (raise e, d)
  finish (unfinished, d) = (unfinished, d)

  -- The preflight has passed. One turn more than the mission has tasks is enough fuel.
  unfoldable pub run_mission : Action W RunResult
  run_mission d =
      let reconciled = reconcile_stale_tasks cfg env d in
      let started = set_mission cfg env own "RUNNING" (
        emit cfg env mission_started none
          (("mission_id", text_or_nothing cfg.mission_id)
            ∷ ("executor", text cfg.executor)
            ∷ ("model", text_or_nothing cfg.model)
            ∷ ("working_directory", text (target_repo cfg))
            ∷ [])
          "" reconciled) in
      finish (
        run_loop cfg env own (suc (length (get_tasks (mission_key cfg) started.db))) start_result
          started)

  abbrev preflight_text : List String → String
  preflight_text dirty = concat_texts (
      "Repository preflight check failed: target repository '"
      ∷ target_repo cfg
      ∷ "' has "
      ∷ show (length dirty)
      ∷ " uncommitted/untracked change(s): "
      ∷ show_texts (limit_to 5 dirty)
      ∷ [])

  -- The body of the `try`.
  unfoldable pub run_locked : Action W RunResult
  run_locked d =
      let dirty = get_dirty_files env.git (target_repo cfg) d.world in
      if env.git.is_git_repo (target_repo cfg) d.world
        && not (is_clean env.git (target_repo cfg) d.world)
      then (
        raise (preflight_failed dirty),
        emit cfg env mission_blocked none
            (("error", text (preflight_text dirty)) ∷ ("dirty_files", texts dirty) ∷ []) "" d,
      )
      else run_mission d

  -- The `finally`.
  unfoldable pub let_go : ProjectLock → Drive W → Drive W
  let_go lock d =
      emit cfg env lock_released none [] ""
        (record d { lock_file = (release lock cfg.process d.lock_file).1 })

  abbrev conflict_text : LockInfo → String → String
  conflict_text info dir = concat_texts (
      "Project execution lock is already held by PID "
      ∷ show info.pid
      ∷ " (Mission: '"
      ∷ info.mission_id
      ∷ "'). Lock file: "
      ∷ dir
      ∷ "/lock"
      ∷ [])

  unfoldable pub after_acquire : Acquired → ProjectLock → Drive W → Result RunResult × Drive W
  unfolding let_go
  after_acquire (lock_conflict info) lock d = (
    raise (lock_held info),
    emit cfg env Events.lock_conflict none
        (("error", text (conflict_text info (lock_dir d.world))) ∷ []) "" d,
  )
  after_acquire acquired lock d =
      let (res, d') =
        run_locked
          (emit cfg env lock_acquired none (("lock_dir", text (lock_dir d.world)) ∷ []) "" d) in
      (res, let_go lock d')

  unfoldable pub run_resolved : Action W RunResult
  run_resolved d =
      let (now, w) = env.clock d.world in
      let (later, w') = env.clock w in
      let (res, lock, file) = acquire (new_lock cfg.mission_id) cfg.process now later d.lock_file in
      after_acquire res lock (record d { lock_file = file; world = w' })

unfoldable pub run : {W : Type 0} → Config → Env W → Adapter → Option String → Action W RunResult
run cfg env own mission_id d = run_resolved (resolve_mission mission_id cfg d.db) env own d
