-- ===== src/Driver/Reconcile.antt =====
-- src/asc/driver.py: `_reconcile_stale_tasks`.
pub mod Stale
use asc_orchestrator_v.Base.{
  ℕ, String, Bool, true, false, Option, none, some, List, [], ◌∷◌, if◌then◌else◌, ltb, length,
}
use asc_orchestrator_v.Base.Text.{concat_texts}
use asc_orchestrator_v.Base.Truthy.{truthy}
use asc_orchestrator_v.Models.{Task, TaskStatus, is_running}
use asc_orchestrator_v.State.{Db, PayloadValue, text, number}
use asc_orchestrator_v.State.Tasks.{get_tasks}
use asc_orchestrator_v.State.Tasks.Status.{of_id, no_fields, update_task_status}
use asc_orchestrator_v.State.Attempts.{get_attempts}
use asc_orchestrator_v.Events.{task_failed}
use asc_orchestrator_v.Driver.{Config, get_max_attempts, mission_key}
use asc_orchestrator_v.Driver.Effects.{Env, Drive}
use asc_orchestrator_v.Driver.Emit.{emit}

module _ {W : Type 0} (cfg : Config) (env : Env W) where
  -- The status that an interrupted task is given: the records of its attempts are counted.
  unfoldable pub reconciled_status : Task → Db → TaskStatus
  reconciled_status t db =
      if ltb (length (get_attempts t.id cfg.mission_id db)) (get_max_attempts cfg t)
      then TaskStatus.interrupted
      else TaskStatus.failed

  unfoldable pub reconcile_task : Task → Drive W → Drive W
  reconcile_task t d =
      let status = reconciled_status t d.db in
      let told =
        emit cfg env task_failed (some t.id)
          (("reason", text "Process interruption detected; reconciling stale RUNNING state")
            ∷ ("attempt_count", number (length (get_attempts t.id cfg.mission_id d.db)))
            ∷ [])
          (concat_texts ("Reconciling interrupted task '" ∷ t.id ∷ "'" ∷ [])) d in
      let (completed_at, w) = env.clock told.world in
      let (now, w') = env.clock w in
      record told {
        db =
            update_task_status now (of_id t.id (some status))
              (record no_fields { completed_at = some completed_at }) cfg.mission_id told.db;
        world = w';
      }

  -- The loop over the tasks that were read before it.
  unfoldable pub reconcile_tasks : List Task → Drive W → Drive W
  reconcile_tasks [] d = d
  reconcile_tasks (t ∷ ts) d =
      reconcile_tasks ts (if is_running t.status then reconcile_task t d else d)

  unfoldable pub reconcile_stale_tasks : Drive W → Drive W
  unfolding reconcile_tasks
  reconcile_stale_tasks d =
      if truthy cfg.mission_id then reconcile_tasks (get_tasks (mission_key cfg) d.db) d else d
