-- ===== src/Driver/Complete.antt =====
-- src/asc/driver.py: `_complete_task` and `_block_task`.
pub mod Rows
use asc_orchestrator_v.Base.{String, Bool, Option, none, some, List, [], ◌∷◌, if◌then◌else◌}
use asc_orchestrator_v.Base.Text.{concat_texts}
use asc_orchestrator_v.Base.Truthy.{truthy}
use asc_orchestrator_v.Models.{Task, TaskStatus}
use asc_orchestrator_v.Models.ExitCode.{pos}
use asc_orchestrator_v.State.{PayloadValue, text, texts, nothing}
use asc_orchestrator_v.State.Tasks.Status.{of_id, no_fields, update_task_status, StatusFields}
use asc_orchestrator_v.Repo.{has_changes, commit_scoped, CommitResult, committed, outside_scope}
use asc_orchestrator_v.Events.{git_commit_started, git_commit_created, task_completed}
use asc_orchestrator_v.Driver.{Config, task_repo}
use asc_orchestrator_v.Driver.Effects.{
  Env, Drive, Action, Result, returned, raise, outside_commit_paths,
}
use asc_orchestrator_v.Driver.Emit.{emit}
use asc_orchestrator_v.Driver.Attempt.{text_or_nothing}

module _ {W : Type 0} (cfg : Config) (env : Env W) (task : Task) where
  -- `update_task_status` for the task and mission at hand.
  unfoldable pub set_task : TaskStatus → StatusFields → Drive W → Drive W
  set_task status fields d =
      let (now, w) = env.clock d.world in
      record d {
        db = update_task_status now (of_id task.id (some status)) fields cfg.mission_id d.db;
        world = w;
      }

  unfoldable pub block_task : Drive W → Drive W
  unfolding set_task
  block_task d = set_task TaskStatus.blocked no_fields d

  -- The last event; the commit that the task ends with is returned.
  unfoldable pub announce : Option String → Action W (Option String)
  announce commit_sha d = (
    returned commit_sha,
    emit cfg env task_completed (some task.id)
        (("title", text task.title) ∷ ("commit_sha", text_or_nothing commit_sha) ∷ [])
        (concat_texts ("Completed task '" ∷ task.id ∷ "'" ∷ [])) d,
  )

  -- What the result of `commit_scoped` leads to. A commit without a hash is not recorded.
  unfoldable pub after_commit : CommitResult → Action W (Option String)
  unfolding announce set_task
  after_commit (outside_scope files) d = (raise (outside_commit_paths files), d)
  after_commit (committed none) d = announce none d
  after_commit (committed (some sha)) d = announce (some sha) (
      if truthy (some sha)
      then emit cfg env git_commit_created (some task.id) (("commit_sha", text sha) ∷ []) ""
          (set_task TaskStatus.completed (record no_fields { commit_sha = some sha }) d)
      else d)

  abbrev pub delta_or_none : List String → Option (List String)
  delta_or_none [] = none
  delta_or_none (f ∷ fs) = some (f ∷ fs)

  -- The commit of the task's delta.
  unfoldable pub commit_delta : List String → Action W (Option String)
  unfolding after_commit
  commit_delta delta d =
      let message = concat_texts ("feat(" ∷ task.id ∷ "): " ∷ task.title ∷ []) in
      let started =
        emit cfg env git_commit_started (some task.id)
          (("message", text message) ∷ ("paths", texts delta) ∷ []) "" d in
      let (result, w) =
        commit_scoped env.git (task_repo cfg task) message (delta_or_none delta) task.commit_paths
          started.world in
      after_commit result (record started { world = w })

  -- The task is COMPLETED before its changes are committed.
  unfoldable pub complete_task : List String → Action W (Option String)
  unfolding commit_delta announce
  complete_task delta d =
      let (completed_at, w) = env.clock d.world in
      let done =
        set_task TaskStatus.completed
          (record no_fields { completed_at = some completed_at; exit_code = some (pos 0) })
          (record d { world = w }) in
      if has_changes env.git (task_repo cfg task) done.world
      then commit_delta delta done
      else announce task.commit_sha done
