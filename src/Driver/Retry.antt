-- ===== src/Driver/Retry.antt =====
-- src/asc/driver.py: the loop of `_execute_task_with_retry`.
pub mod Bound
pub mod Touch
use asc_orchestrator_v.Base.{
  ℕ, zero, suc, ◌+◌, String, Bool, true, false, Option, none, some, List, [], ◌∷◌, ltb,
}
use asc_orchestrator_v.Models.{Task, TaskStatus}
use asc_orchestrator_v.Models.ExitCode.{ℤ, pos}
use asc_orchestrator_v.State.Tasks.Status.{of_id, no_fields, update_task_status}
use asc_orchestrator_v.Driver.{Config, get_max_attempts}
use asc_orchestrator_v.Driver.Effects.{
  Env, Drive, Action, Result, returned, raise, unfinished, Adapter,
}
use asc_orchestrator_v.Driver.Attempt.{RoundEnd, passed, retry, round}

-- `TaskExecutionOutcome`
pub record TaskExecutionOutcome : Type 0 where
  pub success : Bool
  pub exit_code : ℤ
  pub delta : List String

-- After a round: return, go on with `next`, or pass an exception on.
unfoldable pub after_round :
    {W : Type 0}
    → (ℕ → ℤ → List String → Action W TaskExecutionOutcome)
    → ℕ
    → Result RoundEnd
    → Action W TaskExecutionOutcome
after_round next attempt (returned (passed delta)) d =
    (returned (record { success = true; exit_code = pos 0; delta = delta }), d)
after_round next attempt (returned (retry exit_code delta)) d = next attempt exit_code delta d
after_round next attempt (raise e) d = (raise e, d)
after_round next attempt unfinished d = (unfinished, d)

module _ {W : Type 0} (cfg : Config) (env : Env W) (task : Task) (own : Adapter) where
  -- All attempts are used up.
  unfoldable pub exhausted : ℤ → List String → Action W TaskExecutionOutcome
  exhausted last_exit_code last_delta d =
      let (now, w) = env.clock d.world in
      (
        returned (record { success = false; exit_code = last_exit_code; delta = last_delta }),
        record d {
          db =
              update_task_status now (of_id task.id (some TaskStatus.failed))
                (record no_fields { exit_code = some last_exit_code }) cfg.mission_id d.db;
          world = w;
        },
      )

  -- `while attempt < max_attempts`
  unfoldable pub retry_loop : ℕ → ℕ → ℤ → List String → Action W TaskExecutionOutcome
  unfolding after_round
  retry_loop zero attempt last_exit_code last_delta d = (unfinished, d)
  retry_loop (suc fuel) attempt last_exit_code last_delta d =
      let max_attempts = get_max_attempts cfg task in
      elim (ltb attempt max_attempts) [
        | true ↦
            (let (number, end, d') = round cfg env max_attempts task own d in
              after_round (retry_loop fuel) number end d')
        | false ↦ exhausted last_exit_code last_delta d
      ]

  -- A round more than the attempts is enough fuel, since each round counts one.
  unfoldable pub execute_task_with_retry : Action W TaskExecutionOutcome
  unfolding retry_loop
  execute_task_with_retry = retry_loop (suc (get_max_attempts cfg task)) 0 (pos 1) []
