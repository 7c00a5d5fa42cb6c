-- ===== src/Driver/Attempt/Begin.antt =====
-- The row of a task after a round has begun, and the rows of the other tasks.
use asc_orchestrator_v.Base.{ℕ, ◌+◌, String, ◌≡◌, refl, sym, ◌∙◌, ap, subst, true, some}
use asc_orchestrator_v.Base.Truthy.{truthy}
use asc_orchestrator_v.Models.{Task, TaskStatus}
use asc_orchestrator_v.State.{TaskRow, Db, fetch_one}
use asc_orchestrator_v.State.Tasks.{has_key}
use asc_orchestrator_v.State.Tasks.Status.{
  coalesce, set_status, increment_attempt_count, of_id, no_fields,
}
use asc_orchestrator_v.State.Tasks.Save.{row_of}
use asc_orchestrator_v.State.Tasks.Update.{
  update_task_status_row, update_task_status-others, increment_attempt_count_row,
  increment_attempt_count-others,
}
use asc_orchestrator_v.State.Events.{record_event}
use asc_orchestrator_v.Driver.{Config}
use asc_orchestrator_v.Driver.Effects.{Env, Drive, Adapter}
use asc_orchestrator_v.Driver.Emit.{emit}
use asc_orchestrator_v.Driver.Attempt.{begin_db, begin_round, round}
use asc_orchestrator_v.Driver.Attempt.Rows.{SameTasks, tasks-round}

pub row-SameTasks :
    {W : Type 0} (m i : String) (d e : Drive W) → SameTasks d e → row_of m i e.db ≡ row_of m i d.db
row-SameTasks m i d e same = ap (fetch_one (has_key m i)) same

-- The row after a round has begun: the task is RUNNING, and its count is the attempt's number.
pub record IsBegun (r s : TaskRow) (attempt : ℕ) : Type 0 where
  pub number : attempt ≡ coalesce r.attempt_count + 1
  pub count : s.attempt_count ≡ some attempt
  pub status : s.status ≡ TaskStatus.running

begin_db_row :
    (m i : String) (started now : ℕ) (db : Db) (r : TaskRow)
    → truthy (some m) ≡ true
    → row_of m i db ≡ some r
    → let (attempt, after) = begin_db (some m) i started now db in
      (s : TaskRow) × (row_of m i after ≡ some s) × IsBegun r s attempt
unfolding begin_db set_status
begin_db_row m i started now db r text found =
    let (number, stored) = increment_attempt_count_row i m db r text found in
    let row =
      set_status now TaskStatus.running (record no_fields { started_at = some started })
        (record r { attempt_count = some (increment_attempt_count i (some m) db).0 }) in
    (
      row,
      update_task_status_row now (of_id i (some TaskStatus.running))
            (record no_fields { started_at = some started }) m
            (increment_attempt_count i (some m) db).1 text
          ∙ rw stored,
      record { number = number; count = refl; status = refl },
    )

begin_db-others :
    (m i n j : String) (started now : ℕ) (db : Db)
    → truthy (some m) ≡ true
    → ¬ ((m ≡ n) × (i ≡ j))
    → row_of n j (begin_db (some m) i started now db).1 ≡ row_of n j db
unfolding begin_db
begin_db-others m i n j started now db text apart =
    update_task_status-others now (of_id i (some TaskStatus.running)) _ m n j _ text apart
    ∙ increment_attempt_count-others i m n j db text apart

module _ {W : Type 0} (cfg : Config) (env : Env W) (max_attempts : ℕ) (task : Task) (m : String)
    (named : cfg.mission_id ≡ some m) (text : truthy (some m) ≡ true) where
  begin_round_row :
      (d : Drive W) (r : TaskRow)
      → row_of m task.id d.db ≡ some r
      → let (attempt, d') = begin_round cfg env max_attempts task d in
        (s : TaskRow) × (row_of m task.id d'.db ≡ some s) × IsBegun r s attempt
  unfolding begin_round emit record_event
  begin_round_row d r found =
      let started = (env.clock d.world).0 in
      let now = (env.clock (env.clock d.world).1).0 in
      subst
        (λ o.
          let (attempt, after) = begin_db o task.id started now d.db in
          (s : TaskRow) × (row_of m task.id after ≡ some s) × IsBegun r s attempt)
        (sym named) (begin_db_row m task.id started now d.db r text found)

  begin_round-others :
      (d : Drive W) (n j : String)
      → ¬ ((m ≡ n) × (task.id ≡ j))
      → row_of n j (begin_round cfg env max_attempts task d).1.db ≡ row_of n j d.db
  unfolding begin_round emit record_event
  begin_round-others d n j apart =
      let started = (env.clock d.world).0 in
      let now = (env.clock (env.clock d.world).1).0 in
      subst (λ o. row_of n j (begin_db o task.id started now d.db).1 ≡ row_of n j d.db) (sym named)
        (begin_db-others m task.id n j started now d.db text apart)

  -- A whole round counts one attempt, and leaves the task RUNNING.
  pub round_row :
      (own : Adapter) (d : Drive W) (r : TaskRow)
      → row_of m task.id d.db ≡ some r
      → let (attempt, _, d') = round cfg env max_attempts task own d in
        (s : TaskRow) × (row_of m task.id d'.db ≡ some s) × IsBegun r s attempt
  unfolding round
  round_row own d r found =
      let (s, e, begun) = begin_round_row d r found in
      (
        s,
        row-SameTasks m task.id (begin_round cfg env max_attempts task d).1
              (round cfg env max_attempts task own d).2
              (tasks-round cfg env max_attempts task own d)
            ∙ e,
        begun,
      )

  pub round-others :
      (own : Adapter) (d : Drive W) (n j : String)
      → ¬ ((m ≡ n) × (task.id ≡ j))
      → row_of n j (round cfg env max_attempts task own d).2.db ≡ row_of n j d.db
  round-others own d n j apart =
      row-SameTasks n j (begin_round cfg env max_attempts task d).1
        (round cfg env max_attempts task own d).2 (tasks-round cfg env max_attempts task own d)
      ∙ begin_round-others d n j apart
