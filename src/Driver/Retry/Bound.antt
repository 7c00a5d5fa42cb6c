-- ===== src/Driver/Retry/Bound.antt =====
-- The loop of `_execute_task_with_retry` ends, and how many attempts it makes.
use Prim.Native.Nat.{max}
use native.Mathlib.Decide.{dec_lt}
use asc_orchestrator_v.Base.{
  ltb→lt, ltb→ge, ◌-◌, ℕ, zero, suc, ◌+◌, ◌≤◌, ◌<◌, String, ◌≡◌, refl, sym, ◌∙◌, ap, subst, true,
  false, some, List, [], arith, ltb, Bool-cases, inl, inr,
}
use asc_orchestrator_v.Base.Truthy.{truthy}
use asc_orchestrator_v.Models.{Task, TaskStatus}
use asc_orchestrator_v.Models.ExitCode.{ℤ}
use asc_orchestrator_v.State.{TaskRow}
use asc_orchestrator_v.State.Tasks.Status.{
  coalesce, set_status, update_task_status, of_id, no_fields,
}
use asc_orchestrator_v.State.Tasks.Save.{row_of}
use asc_orchestrator_v.State.Tasks.Update.{update_task_status_row}
use asc_orchestrator_v.Driver.{Config, get_max_attempts}
use asc_orchestrator_v.Driver.Effects.{
  Env, Drive, Action, Result, returned, raise, unfinished, Adapter,
}
use asc_orchestrator_v.Driver.Attempt.{RoundEnd, passed, retry, round}
use asc_orchestrator_v.Driver.Attempt.Rows.{round-finishes}
use asc_orchestrator_v.Driver.Attempt.Begin.{round_row}
use asc_orchestrator_v.Driver.Retry.{
  TaskExecutionOutcome, after_round, exhausted, retry_loop, execute_task_with_retry,
}

-- How the row of the task stands at the end: RUNNING after a success, FAILED with the exit code
-- that is returned after a failure. A run without an end is ruled out.
abbrev pub Ending : Result TaskExecutionOutcome → TaskRow → Type 0
Ending (returned o) s =
    (o.success ≡ true → s.status ≡ TaskStatus.running)
    × (o.success ≡ false → (s.status ≡ TaskStatus.failed) × (s.exit_code ≡ some o.exit_code))
Ending (raise e) s = Unit
Ending unfinished s = ⊥

-- The attempts that are stored before and after, and the number with which the loop was entered.
pub record Counted (most entered before after : ℕ) : Type 0 where
  pub idle : most ≤ entered → after ≡ before
  pub counts : entered < most → before < after
  pub capped : entered < most → after ≤ max most (before + 1)

-- One attempt more than the rest of the loop counts.
Counted-next :
    (most entered before after n b : ℕ)
    → entered < most
    → n ≡ before + 1
    → b ≡ before + 1
    → Counted most n b after
    → Counted most entered before after
Counted-next most entered before after n b lt en eb c = elim (dec_lt n most) [
  | yes more ↦
      let grown = c.counts more in
      let least = c.capped more in
      record {
        idle = λ h. absurd (omega arith);
        counts = λ h. omega arith;
        capped = λ h. omega arith;
      }
  | no over ↦
      let same = c.idle (omega arith) in
      record {
        idle = λ h. absurd (omega arith);
        counts = λ h. omega arith;
        capped = λ h. omega arith;
      }
]

-- The row at the end of the loop.
abbrev pub Ends :
    {W : Type 0} → String → String → ℕ → ℕ → ℕ → Result TaskExecutionOutcome × Drive W → Type 0
Ends m i most entered before (res, d) =
    (s : TaskRow) × (row_of m i d.db ≡ some s)
    × Ending res s
    × Counted most entered before (coalesce s.attempt_count)

module _ {W : Type 0} (cfg : Config) (env : Env W) (task : Task) (own : Adapter) (m : String)
    (named : cfg.mission_id ≡ some m) (text : truthy (some m) ≡ true) where
  exhausted-Ends :
      (entered : ℕ) (last : ℤ) (delta : List String) (d : Drive W) (r : TaskRow)
      → row_of m task.id d.db ≡ some r
      → get_max_attempts cfg task ≤ entered
      → Ends m task.id
          (get_max_attempts cfg task)
          entered
          (coalesce r.attempt_count)
          (exhausted cfg env task own last delta d)
  unfolding exhausted set_status
  exhausted-Ends entered last delta d r found over =
      let now = (env.clock d.world).0 in
      let fields = record no_fields { exit_code = some last } in
      let row = set_status now TaskStatus.failed fields r in
      (
        row,
        subst
            (λ o.
              row_of m task.id
                (update_task_status now (of_id task.id (some TaskStatus.failed)) fields o d.db)
              ≡ some row)
            (sym named)
            (update_task_status_row now (of_id task.id (some TaskStatus.failed)) fields m d.db text
              ∙ rw found),
        (λ h. cc, λ h. (refl, refl)),
        record {
          idle = λ h. refl;
          counts = λ h. absurd (omega arith);
          capped = λ h. absurd (omega arith);
        },
      )

  after_round-Ends :
      (next : ℕ → ℤ → List String → Action W TaskExecutionOutcome) (most entered before attempt : ℕ)
      (end : Result RoundEnd) (d : Drive W) (s : TaskRow)
      → row_of m task.id d.db ≡ some s
      → s.status ≡ TaskStatus.running
      → coalesce s.attempt_count ≡ before + 1
      → entered < most
      → attempt ≡ before + 1
      → ¬ (end ≡ unfinished)
      → ((code : ℤ) (delta : List String)
          → (u : TaskRow) × (row_of m task.id (next attempt code delta d).1.db ≡ some u)
            × Ending (next attempt code delta d).0 u
            × Counted most attempt (coalesce s.attempt_count) (coalesce u.attempt_count))
      → Ends m task.id most entered before (after_round next attempt end d)
  unfolding after_round
  after_round-Ends next most entered before attempt (returned (passed delta)) d s found st c lt n
        fin go =
      (
        s,
        found,
        (λ h. st, λ h. cc),
        record {
          idle = λ h. absurd (omega arith);
          counts = λ h. omega arith;
          capped = λ h. omega arith;
        },
      )
  after_round-Ends next most entered before attempt (returned (retry code delta)) d s found st c lt
        n fin go =
      let (u, e, ends, counted) = go code delta in
      (
        u,
        e,
        ends,
        Counted-next most entered before (coalesce u.attempt_count) attempt
            (coalesce s.attempt_count) lt n c counted,
      )
  after_round-Ends next most entered before attempt (raise x) d s found st c lt n fin go = (
    s,
    found,
    tt,
    record {
      idle = λ h. absurd (omega arith);
      counts = λ h. omega arith;
      capped = λ h. omega arith;
    },
  )
  after_round-Ends next most entered before attempt unfinished d s found st c lt n fin go =
      absurd (fin refl)

  -- The number grows, so less is left.
  less_left :
      (most entered attempt before fuel : ℕ)
      → most - entered < suc fuel
      → entered < most
      → entered ≤ before
      → attempt ≡ before + 1
      → most - attempt < fuel
  less_left most entered attempt before fuel enough lt le n = omega arith

  -- With fuel for the attempts that are left, the loop ends.
  retry_loop-Ends :
      (fuel entered : ℕ) (last : ℤ) (delta : List String) (d : Drive W) (r : TaskRow)
      → row_of m task.id d.db ≡ some r
      → get_max_attempts cfg task - entered < fuel
      → entered ≤ coalesce r.attempt_count
      → Ends m task.id
          (get_max_attempts cfg task)
          entered
          (coalesce r.attempt_count)
          (retry_loop cfg env task own fuel entered last delta d)
  unfolding retry_loop
  retry_loop-Ends zero entered last delta d r found enough le = absurd (omega arith)
  retry_loop-Ends (suc fuel) entered last delta d r found enough le =
      let most = get_max_attempts cfg task in
      elim (Bool-cases (ltb entered most)) [
        | inr over ↦
            rw (over, retry_loop)
              (exhausted-Ends entered last delta d r found (ltb→ge entered most over))
        | inl more ↦
            rw (more, retry_loop)
              (let (attempt, end, d') = round cfg env most task own d in
                let (s, e, begun) = round_row cfg env most task m named text own d r found in
                let count : coalesce s.attempt_count ≡ coalesce r.attempt_count + 1 =
                  ap coalesce begun.count ∙ begun.number in
                after_round-Ends (retry_loop cfg env task own fuel) most entered
                  (coalesce r.attempt_count) attempt end d' s e begun.status count
                  (ltb→lt entered most more) begun.number (round-finishes cfg env most task own d)
                  (λ code delta'.
                    retry_loop-Ends fuel attempt code delta' d' s e
                      (less_left most entered attempt (coalesce r.attempt_count) fuel enough
                        (ltb→lt entered most more) le begun.number)
                      (omega (arith, begun.number, count))))
      ]

  -- `_execute_task_with_retry` ends for every task that has a row of the named mission: it makes no attempt if none is
  -- allowed, and otherwise at least one, and none beyond the allowed number but the first. The row
  -- is RUNNING after a success, and FAILED with the returned exit code after a failure.
  pub execute_task_with_retry-Ends :
      (d : Drive W) (r : TaskRow)
      → row_of m task.id d.db ≡ some r
      → Ends m task.id
          (get_max_attempts cfg task)
          0
          (coalesce r.attempt_count)
          (execute_task_with_retry cfg env task own d)
  unfolding execute_task_with_retry
  execute_task_with_retry-Ends d r found =
      retry_loop-Ends (suc (get_max_attempts cfg task)) 0 _ [] d r found (omega arith) (omega arith)
