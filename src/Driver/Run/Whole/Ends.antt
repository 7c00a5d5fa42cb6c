-- ===== src/Driver/Run/Whole/Ends.antt =====
-- `run` always ends.
use asc_orchestrator_v.Base.{
  suc, ◌<◌, ◌≤◌, String, ◌≡◌, ◌≢◌, refl, true, ◌&&◌, not, ◌==◌, Option, some, List, [], ◌∷◌,
  Bool-cases, inl, inr, arith, count_if, length, map, select,
}
use asc_orchestrator_v.Base.Truthy.{truthy}
use asc_orchestrator_v.Models.{SchedulerState}
use asc_orchestrator_v.State.{TaskRow, Db}
use asc_orchestrator_v.State.Tasks.{get_tasks, row_to_task}
use asc_orchestrator_v.State.Tasks.Touch.{waits}
use asc_orchestrator_v.Lock.{ProjectLock, Acquired, acquired, lock_conflict}
use asc_orchestrator_v.Repo.{is_clean}
use asc_orchestrator_v.Driver.{Config, mission_key}
use asc_orchestrator_v.Driver.Effects.{Env, Drive, Result, returned, raise, unfinished, Adapter}
use asc_orchestrator_v.Driver.Run.{RunResult}
use asc_orchestrator_v.Driver.Run.Ends.{run_loop-ends, mission_key-named}
use asc_orchestrator_v.Driver.Run.Whole.{
  resolve_mission, target_repo, finish, run_mission, run_locked, after_acquire, run_resolved, run,
}

-- No more tasks wait than the mission has.
waits-le-tasks :
    (m : String) (rows : List TaskRow)
    → count_if (waits m) rows
      ≤ length (map (λ r. row_to_task (some r)) (select (λ r. r.mission_id == m) rows))
waits-le-tasks m [] = omega arith
waits-le-tasks m (r ∷ rs) = ground (arith, waits-le-tasks m rs)

finish-ends :
    {W : Type 0} (cfg : Config) (env : Env W) (own : Adapter)
    (res : Result (SchedulerState × RunResult)) (d : Drive W)
    → res ≢ unfinished
    → (finish cfg env own (res, d)).0 ≢ unfinished
finish-ends cfg env own (returned out) d h = λ e. cc
finish-ends cfg env own (raise x) d h = λ e. cc
finish-ends cfg env own unfinished d h = λ e. h refl

module _ {W : Type 0} (cfg : Config) (env : Env W) (own : Adapter) (m : String)
    (named : cfg.mission_id ≡ some m) (text : truthy (some m) ≡ true) where
  enough : (db : Db) → count_if (waits m) db.tasks < suc (length (get_tasks (mission_key cfg) db))
  unfolding get_tasks
  enough db = rw (mission_key-named cfg m named text) (omega (arith, waits-le-tasks m db.tasks))

  run_mission-ends : (d : Drive W) → (run_mission cfg env own d).0 ≢ unfinished
  unfolding run_mission
  run_mission-ends d =
      finish-ends cfg env own _ _ (run_loop-ends cfg env own m named text _ _ _ (enough _))

  run_locked-ends : (d : Drive W) → (run_locked cfg env own d).0 ≢ unfinished
  unfolding run_locked
  run_locked-ends d =
      elim (Bool-cases (
        env.git.is_git_repo (target_repo cfg) d.world
        && not (is_clean env.git (target_repo cfg) d.world))) [
          | inl e ↦ rw (e, run_locked) (λ h. cc)
          | inr e ↦ rw (e, run_locked) (run_mission-ends d)
        ]

  after_acquire-ends :
      (res : Acquired) (lock : ProjectLock) (d : Drive W)
      → (after_acquire cfg env own res lock d).0 ≢ unfinished
  unfolding after_acquire
  after_acquire-ends (lock_conflict info) lock d = λ h. cc
  after_acquire-ends acquired lock d = run_locked-ends _

  run_resolved-ends : (d : Drive W) → (run_resolved cfg env own d).0 ≢ unfinished
  unfolding run_resolved
  run_resolved-ends d = after_acquire-ends _ _ _

-- Whenever there is a mission to run, `run` ends, for every behaviour of the executors, the
-- verification commands, the listeners, git and the clock: it returns, or passes on an exception.
pub run-ends :
    {W : Type 0} (cfg : Config) (env : Env W) (own : Adapter) (mission_id : Option String)
    (d : Drive W) (m : String)
    → (resolve_mission mission_id cfg d.db).mission_id ≡ some m
    → truthy (some m) ≡ true
    → (run cfg env own mission_id d).0 ≢ unfinished
unfolding run
run-ends cfg env own mission_id d m named text =
    run_resolved-ends (resolve_mission mission_id cfg d.db) env own m named text d
