-- ===== src/Driver/Run/Ends.antt =====
-- The loop of `run` ends: each turn takes a waiting task, and leaves it in a status that does not
-- wait.
use asc_orchestrator_v.Base.{
  ℕ, zero, suc, ◌<◌, String, ◌≡◌, ◌≢◌, refl, ◌∙◌, subst, Bool, true, false, Option, none, some,
  List, [], ◌∷◌, Any, Bool-cases, Option-cases, inl, inr, arith, count_if, ap, if◌then◌else◌,
}
use asc_orchestrator_v.Base.Truthy.{truthy}
use asc_orchestrator_v.Models.{Task, TaskStatus, is_waiting}
use asc_orchestrator_v.Models.ExitCode.{ℤ}
use asc_orchestrator_v.Repo.{CommitResult, committed, outside_scope, has_changes}
use asc_orchestrator_v.State.{TaskRow, Db}
use asc_orchestrator_v.State as Payload
use asc_orchestrator_v.State.Tasks.{has_key}
use asc_orchestrator_v.State.Tasks.Status.{no_fields}
use asc_orchestrator_v.State.Tasks.Save.{row_of}
use asc_orchestrator_v.State.Tasks.Touch.{Touch, waits, waiting-Touch}
use asc_orchestrator_v.State.Events.{record_event}
use asc_orchestrator_v.Events.{task_ready}
use asc_orchestrator_v.Dag.Ready.{IsReady}
use asc_orchestrator_v.Driver.{Config, mission_key, task_repo}
use asc_orchestrator_v.Driver.Effects.{
  Env, Drive, Result, returned, raise, unfinished, Adapter, and_then,
}
use asc_orchestrator_v.Driver.Emit.{emit}
use asc_orchestrator_v.Driver.Complete.{complete_task, after_commit, commit_delta, announce}
use asc_orchestrator_v.Driver.Complete.Rows.{
  Settles, Settles-after, set_task-Settles, complete_task-Settles, block_task-Settles,
}
use asc_orchestrator_v.Driver.Retry.{TaskExecutionOutcome, execute_task_with_retry}
use asc_orchestrator_v.Driver.Retry.Touch.{execute_task_with_retry-Touch}
use asc_orchestrator_v.Driver.Retry.Bound.{Ending, execute_task_with_retry-Ends}
use asc_orchestrator_v.Driver.Run.{
  RunResult, goes_on, evaluate, get_next_task, add_commit, fail_task, settle_task, run_task,
  run_loop,
}
use asc_orchestrator_v.Driver.Run.Next.{HasRow, HasRow-row_of, get_next_task-IsReady}

-- Only the key's rows have changed, and they have left the waiting statuses.
abbrev pub Leaves : {W : Type 0} → String → String → Drive W → Drive W → Type 0
Leaves m i d e = (status : TaskStatus) × (is_waiting status ≡ false) × Settles m i status d e

-- A turn that returns has done so; a turn is never unfinished.
abbrev pub Turned : {W A : Type 0} → String → String → Drive W → Result A × Drive W → Type 0
Turned m i d (returned r, e) = Leaves m i d e
Turned m i d (raise x, e) = Unit
Turned m i d (unfinished, e) = ⊥

module _ {W : Type 0} (cfg : Config) (env : Env W) (own : Adapter) (task : Task) (m : String)
    (named : cfg.mission_id ≡ some m) (text : truthy (some m) ≡ true) where
  fail_task-Leaves :
      (exit_code : ℤ) (d : Drive W) → Leaves m task.id d (fail_task cfg env own task exit_code d)
  unfolding fail_task emit record_event
  fail_task-Leaves exit_code d =
      let first =
        set_task-Settles cfg env task m named text TaskStatus.failed
          (record no_fields { exit_code = some exit_code }) d in
      (
        TaskStatus.blocked,
        refl,
        Settles-after m task.id TaskStatus.blocked d _ _ first.touch
            (block_task-Settles cfg env task m named text _),
      )

  after_commit-finishes :
      (result : CommitResult) (d : Drive W) → (after_commit cfg env task result d).0 ≢ unfinished
  unfolding after_commit announce
  after_commit-finishes (outside_scope files) d h = cc
  after_commit-finishes (committed none) d h = cc
  after_commit-finishes (committed (some sha)) d h = cc

  complete_task-finishes :
      (delta : List String) (d : Drive W) → (complete_task cfg env task delta d).0 ≢ unfinished
  unfolding complete_task commit_delta announce
  complete_task-finishes delta d =
      finishes (has_changes env.git (task_repo cfg task) _) _ _ (after_commit-finishes _ _)
        (λ h. cc)
    where
      finishes :
          (b : Bool) (x y : Result (Option String) × Drive W)
          → x.0 ≢ unfinished
          → y.0 ≢ unfinished
          → (if b then x else y).0 ≢ unfinished
      finishes true x y p q = p
      finishes false x y p q = q

  completed-Turned :
      (r : RunResult) (d e : Drive W) (res : Result (Option String))
      → res ≢ unfinished
      → Leaves m task.id d e
      → Turned m task.id d (and_then res (λ commit x. (returned (add_commit commit r), x)) e)
  completed-Turned r d e (returned commit) fin l = l
  completed-Turned r d e (raise x) fin l = tt
  completed-Turned r d e unfinished fin l = fin refl

  settle_task-Turned :
      (r : RunResult) (o : TaskExecutionOutcome) (c d : Drive W)
      → Touch m task.id c.db.tasks d.db.tasks
      → Turned m task.id c (settle_task cfg env own task r o d)
  unfolding settle_task
  settle_task-Turned r o c d touch = elim (Bool-cases o.success) [
    | inl e ↦
        rw (e, settle_task)
          (completed-Turned r c (complete_task cfg env task o.delta d).1
            (complete_task cfg env task o.delta d).0 (complete_task-finishes o.delta d)
            (
              TaskStatus.completed,
              refl,
              Settles-after m task.id TaskStatus.completed c d _ touch
                  (complete_task-Settles cfg env task m named text o.delta d),
            ))
    | inr e ↦
        rw (e, settle_task)
          (let (status, done, settled) = fail_task-Leaves o.exit_code d in
            (status, done, Settles-after m task.id status c d _ touch settled))
  ]

  executed-Turned :
      (r : RunResult) (outcome : Result TaskExecutionOutcome) (s : TaskRow) (c d : Drive W)
      → Ending outcome s
      → Touch m task.id c.db.tasks d.db.tasks
      → Turned m task.id c (and_then outcome (settle_task cfg env own task r) d)
  executed-Turned r (returned o) s c d ending touch = settle_task-Turned r o c d touch
  executed-Turned r (raise x) s c d ending touch = tt
  executed-Turned r unfinished s c d ending touch = ending

  -- One turn of the loop, for a task that has a row of the named mission: it ends, and if it returns, then the rows of
  -- the task have left the waiting statuses, and no other row has changed.
  pub run_task-Turned :
      (r : RunResult) (d : Drive W) (row : TaskRow)
      → row_of m task.id d.db ≡ some row
      → Turned m task.id d (run_task cfg env own task r d)
  unfolding run_task emit record_event
  run_task-Turned r d row found =
      let ready =
        emit cfg env task_ready (some task.id) (("title", Payload.text task.title) ∷ []) "" d in
      let (s, e, ending, counted) =
        execute_task_with_retry-Ends cfg env task own m named text ready row found in
      executed-Turned r (execute_task_with_retry cfg env task own ready).0 s d
        (execute_task_with_retry cfg env task own ready).1 ending
        (execute_task_with_retry-Touch cfg env task own m named text ready)

pub mission_key-named :
    (cfg : Config) (m : String)
    → cfg.mission_id ≡ some m
    → truthy (some m) ≡ true
    → mission_key cfg ≡ m
mission_key-named cfg m named text = rw named (ground (arith, text))

-- A row of the key waits.
HasRow-waits :
    (m : String) (t : Task) (rows : List TaskRow)
    → is_waiting t.status ≡ true
    → HasRow m t rows
    → Any (λ r. (has_key m t.id r ≡ true) × (is_waiting r.status ≡ true)) rows
HasRow-waits m t [] w h = h
HasRow-waits m t (r ∷ rs) w (inl (k, e)) = inl (k, ap is_waiting e ∙ w)
HasRow-waits m t (r ∷ rs) w (inr h) = inr (HasRow-waits m t rs w h)

module _ {W : Type 0} (cfg : Config) (env : Env W) (own : Adapter) (m : String)
    (named : cfg.mission_id ≡ some m) (text : truthy (some m) ≡ true) where
  next_turn :
      (fuel : ℕ) (task : Task) (d : Drive W) (res : Result RunResult × Drive W)
      → Turned m task.id d res
      → is_waiting task.status ≡ true
      → HasRow m task d.db.tasks
      → count_if (waits m) d.db.tasks < suc fuel
      → ((r : RunResult) (e : Drive W)
          → count_if (waits m) e.db.tasks < fuel
          → (run_loop cfg env own fuel r e).0 ≢ unfinished)
      → (and_then res.0 (run_loop cfg env own fuel) res.1).0 ≢ unfinished
  next_turn fuel task d (returned r, e) (status, done, s) w has lt go =
      let (_, less) = waiting-Touch m task.id status d.db.tasks e.db.tasks done s.touch s.has in
      go r e (omega (arith, less (HasRow-waits m task d.db.tasks w has), lt))
  next_turn fuel task d (raise x, e) t w has lt go = λ h. cc
  next_turn fuel task d (unfinished, e) t w has lt go = absurd t

  -- With a named mission and more fuel than it has waiting tasks, the loop of `run` ends by itself: it
  -- returns, or passes on an exception.
  pub run_loop-ends :
      (fuel : ℕ) (r : RunResult) (d : Drive W)
      → count_if (waits m) d.db.tasks < fuel
      → (run_loop cfg env own fuel r d).0 ≢ unfinished
  unfolding run_loop
  run_loop-ends zero r d lt = absurd (omega (arith, lt))
  run_loop-ends (suc fuel) r d lt = elim (Bool-cases (goes_on (evaluate cfg d.db).state)) [
    | inr e ↦ rw (e, run_loop) (λ h. cc)
    | inl e ↦ (elim (Option-cases (get_next_task cfg d.db)) [
      | inl n ↦ rw (e, n, run_loop) (λ h. cc)
      | inr (task, n) ↦
          rw (e, n, run_loop)
            (let (ready, at_key) = get_next_task-IsReady cfg d.db task n in
              let has : HasRow m task d.db.tasks =
                subst (λ k. HasRow k task d.db.tasks) (mission_key-named cfg m named text) at_key in
              let (row, found) = HasRow-row_of m task d.db has in
              next_turn fuel task d (run_task cfg env own task r d)
                (run_task-Turned cfg env own task m named text r d row found) (is_waiting_of ready)
                has lt (λ r' e'. run_loop-ends fuel r' e'))
    ])
  ]
    where
      is_waiting_of : {reg : _} {t : Task} → IsReady reg t → is_waiting t.status ≡ true
      is_waiting_of x = elim x.waiting [ inl e ↦ ap is_waiting e | inr e ↦ ap is_waiting e ]
