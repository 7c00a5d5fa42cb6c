-- ===== src/Driver/Complete/Rows.antt =====
-- What completing and blocking a task write to the table of tasks.
use asc_orchestrator_v.Base.{
  String, ◌≡◌, sym, subst, true, none, some, List, [], ◌∷◌, Bool-cases, inl, inr,
}
use asc_orchestrator_v.Base.Truthy.{truthy}
use asc_orchestrator_v.Models.{Task, TaskStatus}
use asc_orchestrator_v.Models.ExitCode.{pos}
use asc_orchestrator_v.Base.Text.{concat_texts}
use asc_orchestrator_v.State.{PayloadValue, texts}
use asc_orchestrator_v.State as Payload
use asc_orchestrator_v.Events.{git_commit_started}
use asc_orchestrator_v.State.Tasks.Status.{of_id, no_fields, StatusFields, update_task_status}
use asc_orchestrator_v.State.Tasks.Touch.{
  Touch, Touch-trans, HasStatus, update_task_status-Touch, update_task_status-HasStatus,
}
use asc_orchestrator_v.State.Events.{record_event}
use asc_orchestrator_v.Repo.{CommitResult, committed, outside_scope, commit_scoped, has_changes}
use asc_orchestrator_v.Driver.{Config, task_repo}
use asc_orchestrator_v.Driver.Effects.{Env, Drive}
use asc_orchestrator_v.Driver.Emit.{emit}
use asc_orchestrator_v.Driver.Complete.{
  set_task, block_task, announce, after_commit, commit_delta, delta_or_none, complete_task,
}

-- From `d` to `e` only the rows of one key have changed, and they have this status.
pub record Settles {W : Type 0} (m i : String) (status : TaskStatus) (d e : Drive W) : Type 0 where
  pub touch : Touch m i d.db.tasks e.db.tasks
  pub has : HasStatus m i status e.db.tasks

pub Settles-after :
    {W : Type 0} (m i : String) (status : TaskStatus) (c d e : Drive W)
    → Touch m i c.db.tasks d.db.tasks
    → Settles m i status d e
    → Settles m i status c e
Settles-after m i status c d e touch s = record {
  touch = Touch-trans m i _ _ _ touch s.touch;
  has = s.has;
}

module _ {W : Type 0} (cfg : Config) (env : Env W) (task : Task) (m : String)
    (named : cfg.mission_id ≡ some m) (text : truthy (some m) ≡ true) where
  pub set_task-Settles :
      (status : TaskStatus) (fields : StatusFields) (d : Drive W)
      → Settles m task.id status d (set_task cfg env task status fields d)
  unfolding set_task
  set_task-Settles status fields d =
      let now = (env.clock d.world).0 in
      let target = of_id task.id (some status) in
      record {
        touch =
            subst
              (λ o. Touch m task.id d.db.tasks (update_task_status now target fields o d.db).tasks)
              (sym named) (update_task_status-Touch m task.id now text target fields d.db);
        has =
            subst
              (λ o. HasStatus m task.id status (update_task_status now target fields o d.db).tasks)
              (sym named) (update_task_status-HasStatus m task.id now text target fields d.db);
      }

  after_commit-Settles :
      (result : CommitResult) (c d : Drive W)
      → Settles m task.id TaskStatus.completed c d
      → Settles m task.id TaskStatus.completed c (after_commit cfg env task result d).1
  unfolding after_commit announce emit record_event
  after_commit-Settles (outside_scope files) c d s = s
  after_commit-Settles (committed none) c d s = record { touch = s.touch; has = s.has }
  after_commit-Settles (committed (some sha)) c d s = elim (Bool-cases (truthy (some sha))) [
    | inl e ↦
        let again =
          Settles-after m task.id TaskStatus.completed c d _ s.touch
            (set_task-Settles TaskStatus.completed _ d) in
        rw (e, after_commit) (record { touch = again.touch; has = again.has })
    | inr e ↦ rw (e, after_commit) (record { touch = s.touch; has = s.has })
  ]

  commit_delta-Settles :
      (delta : List String) (c d : Drive W)
      → Settles m task.id TaskStatus.completed c d
      → Settles m task.id TaskStatus.completed c (commit_delta cfg env task delta d).1
  unfolding commit_delta emit record_event
  commit_delta-Settles delta c d s =
      let message = concat_texts ("feat(" ∷ task.id ∷ "): " ∷ task.title ∷ []) in
      let started =
        emit cfg env git_commit_started (some task.id)
          (("message", Payload.text message) ∷ ("paths", texts delta) ∷ []) "" d in
      let (result, w) =
        commit_scoped env.git (task_repo cfg task) message (delta_or_none cfg env task delta)
          task.commit_paths started.world in
      after_commit-Settles result c (record started { world = w })
        (record { touch = s.touch; has = s.has })

  -- With a named mission, however `_complete_task` ends, also when its commit is refused by an exception, every row of
  -- the task is stored COMPLETED, the keys of the table are as before, and so are the rows of all
  -- other tasks.
  pub complete_task-Settles :
      (delta : List String) (d : Drive W)
      → Settles m task.id TaskStatus.completed d (complete_task cfg env task delta d).1
  unfolding complete_task announce emit record_event
  complete_task-Settles delta d =
      let (completed_at, w) = env.clock d.world in
      let fields = record no_fields {
        completed_at = some completed_at;
        exit_code = some (pos 0);
      } in
      let done = set_task cfg env task TaskStatus.completed fields (record d { world = w }) in
      let s = set_task-Settles TaskStatus.completed fields (record d { world = w }) in
      elim (Bool-cases (has_changes env.git (task_repo cfg task) done.world)) [
        | inl e ↦
            rw (e, complete_task)
              (commit_delta-Settles delta d done (record { touch = s.touch; has = s.has }))
        | inr e ↦ rw (e, complete_task) (record { touch = s.touch; has = s.has })
      ]

  pub block_task-Settles :
      (d : Drive W) → Settles m task.id TaskStatus.blocked d (block_task cfg env task d)
  unfolding block_task
  block_task-Settles d = set_task-Settles TaskStatus.blocked _ d
