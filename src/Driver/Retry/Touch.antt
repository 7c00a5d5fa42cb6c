-- ===== src/Driver/Retry/Touch.antt =====
-- The attempts of a task change no other task.
use asc_orchestrator_v.Base.{
  ℕ, zero, suc, String, ◌≡◌, sym, subst, true, some, List, [], Bool-cases, inl, inr, ltb,
}
use asc_orchestrator_v.Base.Truthy.{truthy}
use asc_orchestrator_v.Models.{Task, TaskStatus}
use asc_orchestrator_v.Models.ExitCode.{ℤ}
use asc_orchestrator_v.State.{Db}
use asc_orchestrator_v.State.Tasks.Status.{
  of_id, no_fields, update_task_status, increment_attempt_count,
}
use asc_orchestrator_v.State.Tasks.Touch.{
  Touch, Touch-refl, Touch-trans, update_task_status-Touch, increment_attempt_count-Touch,
}
use asc_orchestrator_v.State.Events.{record_event}
use asc_orchestrator_v.Driver.{Config, get_max_attempts}
use asc_orchestrator_v.Driver.Effects.{
  Env, Drive, Action, Result, returned, raise, unfinished, Adapter,
}
use asc_orchestrator_v.Driver.Emit.{emit}
use asc_orchestrator_v.Driver.Attempt.{RoundEnd, passed, retry, begin_db, begin_round, round}
use asc_orchestrator_v.Driver.Attempt.Rows.{tasks-round}
use asc_orchestrator_v.Driver.Retry.{
  TaskExecutionOutcome, after_round, exhausted, retry_loop, execute_task_with_retry,
}

begin_db-Touch :
    (m i : String) (started now : ℕ) (db : Db)
    → truthy (some m) ≡ true
    → Touch m i db.tasks (begin_db (some m) i started now db).1.tasks
unfolding begin_db
begin_db-Touch m i started now db text =
    Touch-trans m i _ _ _ (increment_attempt_count-Touch m i now text db) (
      update_task_status-Touch m i now text (of_id i (some TaskStatus.running))
        (record no_fields { started_at = some started }) (increment_attempt_count i (some m) db).1)

module _ {W : Type 0} (cfg : Config) (env : Env W) (task : Task) (own : Adapter) (m : String)
    (named : cfg.mission_id ≡ some m) (text : truthy (some m) ≡ true) where
  abbrev Touches : Drive W → Drive W → Type 0
  Touches d e = Touch m task.id d.db.tasks e.db.tasks

  begin_round-Touches : (most : ℕ) (d : Drive W) → Touches d (begin_round cfg env most task d).1
  unfolding begin_round emit record_event
  begin_round-Touches most d =
      let started = (env.clock d.world).0 in
      let now = (env.clock (env.clock d.world).1).0 in
      subst (λ o. Touch m task.id d.db.tasks (begin_db o task.id started now d.db).1.tasks)
        (sym named) (begin_db-Touch m task.id started now d.db text)

  round-Touches : (most : ℕ) (d : Drive W) → Touches d (round cfg env most task own d).2
  round-Touches most d =
      subst (λ rows. Touch m task.id d.db.tasks rows) (sym (tasks-round cfg env most task own d))
        (begin_round-Touches most d)

  exhausted-Touches :
      (last : ℤ) (delta : List String) (d : Drive W)
      → Touches d (exhausted cfg env task own last delta d).1
  unfolding exhausted
  exhausted-Touches last delta d =
      let now = (env.clock d.world).0 in
      let target = of_id task.id (some TaskStatus.failed) in
      let fields = record no_fields { exit_code = some last } in
      subst (λ o. Touch m task.id d.db.tasks (update_task_status now target fields o d.db).tasks)
        (sym named) (update_task_status-Touch m task.id now text target fields d.db)

  after_round-Touches :
      (next : ℕ → ℤ → List String → Action W TaskExecutionOutcome) (attempt : ℕ)
      (end : Result RoundEnd) (c d : Drive W)
      → Touches c d
      → ((exit_code : ℤ) (delta : List String) → Touches d (next attempt exit_code delta d).1)
      → Touches c (after_round next attempt end d).1
  unfolding after_round
  after_round-Touches next attempt (returned (passed delta)) c d touch go = touch
  after_round-Touches next attempt (returned (retry exit_code delta)) c d touch go =
      Touch-trans m task.id _ _ _ touch (go exit_code delta)
  after_round-Touches next attempt (raise e) c d touch go = touch
  after_round-Touches next attempt unfinished c d touch go = touch

  retry_loop-Touches :
      (fuel attempt : ℕ) (last : ℤ) (delta : List String) (d : Drive W)
      → Touches d (retry_loop cfg env task own fuel attempt last delta d).1
  unfolding retry_loop
  retry_loop-Touches zero attempt last delta d = Touch-refl m task.id d.db.tasks
  retry_loop-Touches (suc fuel) attempt last delta d =
      let most = get_max_attempts cfg task in
      elim (Bool-cases (ltb attempt most)) [
        | inr over ↦ rw (over, retry_loop) (exhausted-Touches last delta d)
        | inl more ↦
            rw (more, retry_loop)
              (let (number, end, d') = round cfg env most task own d in
                after_round-Touches (retry_loop cfg env task own fuel) number end d d'
                  (round-Touches most d)
                  (λ exit_code delta'. retry_loop-Touches fuel number exit_code delta' d'))
      ]

  -- With a named mission, executing a task, with all its attempts, adds and removes no row, keeps every key, and leaves
  -- the rows of all other tasks as they were.
  pub execute_task_with_retry-Touch :
      (d : Drive W)
      → Touch m task.id d.db.tasks (execute_task_with_retry cfg env task own d).1.db.tasks
  unfolding execute_task_with_retry
  execute_task_with_retry-Touch d = retry_loop-Touches (suc (get_max_attempts cfg task)) 0 _ [] d
