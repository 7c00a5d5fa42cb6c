-- ===== src/Driver/Run.antt =====
-- src/asc/driver.py: `run`, `_evaluate`, `_get_next_task` and `_get_all_tasks`.
pub mod Next
pub mod Ends
pub mod Whole
use asc_orchestrator_v.Base.{
  ℕ, zero, suc, ◌+◌, String, Bool, true, false, not, ◌&&◌, ◌==◌, Option, none, some, List, [], ◌∷◌,
  ◌++◌, if◌then◌else◌, head_or_none, length,
}
use asc_orchestrator_v.Base.Dict.{Dict}
use asc_orchestrator_v.Base.Truthy.{truthy, or_default, or_text}
use asc_orchestrator_v.Models.{Task, TaskStatus, SchedulerState}
use asc_orchestrator_v.Models.ExitCode.{ℤ}
use asc_orchestrator_v.State.{PayloadValue, text, number, code, texts, Db}
use asc_orchestrator_v.State.Tasks.{get_tasks}
use asc_orchestrator_v.State.Tasks.Status.{no_fields}
use asc_orchestrator_v.State.Missions.{update_mission_status, get_last_mission_id}
use asc_orchestrator_v.Dag.{
  AllTasks, as_dict, add_tasks, MissionEvaluationResult, evaluate_mission, get_runnable_tasks,
}
use asc_orchestrator_v.Events.{task_ready, task_failed, mission_completed, mission_blocked}
use asc_orchestrator_v.Driver.{Config, mission_key}
use asc_orchestrator_v.Driver.Effects.{
  Env, Drive, Action, Result, returned, raise, unfinished, Adapter, and_then,
}
use asc_orchestrator_v.Driver.Emit.{emit}
use asc_orchestrator_v.Driver.Complete.{set_task, block_task, complete_task}
use asc_orchestrator_v.Driver.Retry.{TaskExecutionOutcome, execute_task_with_retry}

-- The dictionary that `run` returns, less its error, which is only set before a raise.
pub record RunResult : Type 0 where
  pub mission_id : Option String
  pub final_status : Option String
  pub tasks_completed : ℕ
  pub tasks_failed : ℕ
  pub tasks_blocked : ℕ
  pub git_commits : List String

abbrev pub state_value : SchedulerState → String
state_value SchedulerState.runnable = "RUNNABLE"
state_value SchedulerState.running = "RUNNING"
state_value SchedulerState.complete = "COMPLETE"
state_value SchedulerState.blocked = "BLOCKED"

-- The test of the `while` loop.
abbrev pub goes_on : SchedulerState → Bool
goes_on SchedulerState.runnable = true
goes_on SchedulerState.running = true
goes_on _ = false

unfoldable pub get_all_tasks : Config → Db → Dict Task
get_all_tasks cfg db = add_tasks [] (get_tasks (mission_key cfg) db)

unfoldable pub evaluate : Config → Db → MissionEvaluationResult
evaluate cfg db =
    evaluate_mission (or_default cfg.mission_id "default") (as_dict (get_all_tasks cfg db))

unfoldable pub get_next_task : Config → Db → Option Task
get_next_task cfg db = head_or_none (get_runnable_tasks (as_dict (get_all_tasks cfg db)))

-- `if task.commit_sha: result["git_commits"].append(task.commit_sha)`
abbrev pub add_commit : Option String → RunResult → RunResult
add_commit commit r =
    if truthy commit
    then record r {
      tasks_completed = r.tasks_completed + 1;
      git_commits = r.git_commits ++ or_default commit "" ∷ [];
    }
    else record r { tasks_completed = r.tasks_completed + 1 }

module _ {W : Type 0} (cfg : Config) (env : Env W) (own : Adapter) where
  unfoldable pub fail_task : Task → ℤ → Drive W → Drive W
  fail_task task exit_code d = block_task cfg env task (
      emit cfg env task_failed (some task.id) (("exit_code", code exit_code) ∷ []) "" (
        set_task cfg env task TaskStatus.failed (record no_fields { exit_code = some exit_code })
          d))

  -- What follows the execution of a task, in the loop of `run`.
  unfoldable pub settle_task : Task → RunResult → TaskExecutionOutcome → Action W RunResult
  settle_task task r o d =
      if o.success
      then and_then (complete_task cfg env task o.delta d).0
          (λ commit e. (returned (add_commit commit r), e)) (complete_task cfg env task o.delta d).1
      else (
        returned
            (record r { tasks_failed = r.tasks_failed + 1; tasks_blocked = r.tasks_blocked + 1 }),
        fail_task task o.exit_code d,
      )

  -- One turn of the loop of `run`.
  unfoldable pub run_task : Task → RunResult → Action W RunResult
  run_task task r d =
      let ready = emit cfg env task_ready (some task.id) (("title", text task.title) ∷ []) "" d in
      let (outcome, d') = execute_task_with_retry cfg env task own ready in
      and_then outcome (settle_task task r) d'

  -- The loop of `run`; the state of the last evaluation is returned with the result.
  unfoldable pub run_loop : ℕ → RunResult → Action W (SchedulerState × RunResult)
  run_loop zero r d = (unfinished, d)
  run_loop (suc fuel) r d =
      let state = (evaluate cfg d.db).state in
      elim (goes_on state) [
        | false ↦ (returned (state, r), d)
        | true ↦ (elim (get_next_task cfg d.db) [
          | none ↦ (returned (state, r), d)
          | some task ↦ and_then (run_task task r d).0 (run_loop fuel) (run_task task r d).1
        ])
      ]

  unfoldable pub set_mission : String → Drive W → Drive W
  set_mission status d =
      let (now, w) = env.clock d.world in
      record d { db = update_mission_status now (mission_key cfg) status d.db; world = w }

  -- After the loop.
  unfoldable pub conclude : SchedulerState × RunResult → Drive W → RunResult × Drive W
  conclude (state, r) d = (
    record r { final_status = some (state_value state) },
    (if state_value state == "COMPLETE"
        then set_mission "COMPLETE" (
            emit cfg env mission_completed none (("tasks_completed", number r.tasks_completed) ∷ [])
              "" d)
        else set_mission "BLOCKED" (
            emit cfg env mission_blocked none (("tasks_blocked", number r.tasks_blocked) ∷ []) ""
              d)),
  )
