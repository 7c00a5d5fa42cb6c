-- ===== src/Driver/Reconcile/Stale.antt =====
-- After the reconciliation no task of the mission is left RUNNING.
use asc_orchestrator_v.Base.{
  ℕ, String, ◌≡◌, refl, sym, ◌∙◌, ap, subst, true, false, ◌==◌, some, List, [], ◌∷◌, All, Any,
  Member, map, inl, inr, Bool-cases, arith, ltb, length, eq_iff,
}
use asc_orchestrator_v.Base.Select.{select-Member}
use asc_orchestrator_v.Base.Truthy.{truthy}
use asc_orchestrator_v.Models.{Task, TaskStatus, is_running}
use asc_orchestrator_v.State.{TaskRow, Db, update_where}
use asc_orchestrator_v.State.Tasks.{has_key, row_to_task, get_tasks}
use asc_orchestrator_v.State.Tasks.Status.{of_id, StatusFields, set_status, update_task_status}
use asc_orchestrator_v.State.Attempts.{get_attempts}
use asc_orchestrator_v.State.Events.{record_event}
use asc_orchestrator_v.Driver.{Config, get_max_attempts, mission_key}
use asc_orchestrator_v.Driver.Effects.{Env, Drive}
use asc_orchestrator_v.Driver.Emit.{emit}
use asc_orchestrator_v.Driver.Reconcile.{
  reconciled_status, reconcile_task, reconcile_tasks, reconcile_stale_tasks,
}
use asc_orchestrator_v.Driver.Run.Ends.{mission_key-named}

-- One of the tasks is this row's, and it is RUNNING.
abbrev Names : List Task → TaskRow → Type 0
Names ts r = Any (λ t. (t.id ≡ r.id) × (is_running t.status ≡ true)) ts

-- The mission's rows that are RUNNING are among the tasks that are left.
abbrev CoveredRow : String → List Task → TaskRow → Type 0
CoveredRow m ts r = (r.mission_id == m) ≡ true → is_running r.status ≡ true → Names ts r

abbrev Covered : String → List Task → List TaskRow → Type 0
Covered m ts rows = All (CoveredRow m ts) rows

skip_task :
    (m : String) (t : Task) (ts : List Task) (rows : List TaskRow)
    → is_running t.status ≡ false
    → Covered m (t ∷ ts) rows
    → Covered m ts rows
skip_task m t ts [] idle c = tt
skip_task m t ts (r ∷ rs) idle c =
    (λ a b. elim (c.0 a b) [ inl (_, e) ↦ cc | inr n ↦ n ], skip_task m t ts rs idle c.1)

settle_row :
    (m : String) (t : Task) (ts : List Task) (now : ℕ) (status : TaskStatus) (fields : StatusFields)
    (rows : List TaskRow)
    → is_running status ≡ false
    → Covered m (t ∷ ts) rows
    → Covered m ts (update_where (has_key m t.id) (set_status now status fields) rows)
unfolding update_where set_status
settle_row m t ts now status fields [] idle c = tt
settle_row m t ts now status fields (r ∷ rs) idle c = elim (Bool-cases (has_key m t.id r)) [
  | inl e ↦ rw e (λ a b. cc, settle_row m t ts now status fields rs idle c.1)
  | inr e ↦ rw e (
    λ a b. elim (c.0 a b) [
      | inl (i, _) ↦ absurd (ground (arith, a, eq_iff r.id t.id, sym i, e))
      | inr n ↦ n
    ],
    settle_row m t ts now status fields rs idle c.1,
  )
]

All-of_Member :
    (P : TaskRow → Type 0) (rows : List TaskRow)
    → ((r : TaskRow) → Member r rows → P r)
    → All P rows
All-of_Member P [] h = tt
All-of_Member P (r ∷ rs) h = (h r (inl refl), All-of_Member P rs (λ x k. h x (inr k)))

Names-map :
    (r : TaskRow) (rows : List TaskRow)
    → is_running r.status ≡ true
    → Member r rows
    → Names (map (λ x. row_to_task (some x)) rows) r
unfolding row_to_task
Names-map r [] running k = k
Names-map r (x ∷ xs) running (inl e) =
    inl (ap (λ y. y.id) e, ap (λ y. is_running y.status) e ∙ running)
Names-map r (x ∷ xs) running (inr k) = inr (Names-map r xs running k)

get_tasks-Covered : (m : String) (db : Db) → Covered m (get_tasks m db) db.tasks
unfolding get_tasks
get_tasks-Covered m db =
    All-of_Member (CoveredRow m (get_tasks m db)) db.tasks
      (λ r k a b. Names-map r _ b (select-Member (λ x. x.mission_id == m) r db.tasks k a))

module _ {W : Type 0} (cfg : Config) (env : Env W) (m : String) (named : cfg.mission_id ≡ some m)
    (text : truthy (some m) ≡ true) where
  reconciled_status-idle :
      (t : Task) (db : Db) → is_running (reconciled_status cfg env t db) ≡ false
  unfolding reconciled_status
  reconciled_status-idle t db =
      elim (Bool-cases
        (ltb (length (get_attempts t.id cfg.mission_id db)) (get_max_attempts cfg t))) [
          | inl e ↦ rw e refl
          | inr e ↦ rw e refl
        ]

  update-Covered :
      (now : ℕ) (status : TaskStatus) (fields : StatusFields) (t : Task) (ts : List Task) (db : Db)
      → is_running status ≡ false
      → Covered m (t ∷ ts) db.tasks
      → Covered m ts
          (update_task_status now (of_id t.id (some status)) fields cfg.mission_id db).tasks
  unfolding update_task_status
  update-Covered now status fields t ts db idle c =
      subst
        (λ o. Covered m ts (update_task_status now (of_id t.id (some status)) fields o db).tasks)
        (sym named) (rw text (settle_row m t ts now status fields db.tasks idle c))

  reconcile_task-Covered :
      (t : Task) (ts : List Task) (d : Drive W)
      → Covered m (t ∷ ts) d.db.tasks
      → Covered m ts (reconcile_task cfg env t d).db.tasks
  unfolding reconcile_task emit record_event
  reconcile_task-Covered t ts d c =
      update-Covered _ (reconciled_status cfg env t d.db) _ t ts _ (reconciled_status-idle t d.db) c

  reconcile_tasks-Covered :
      (ts : List Task) (d : Drive W)
      → Covered m ts d.db.tasks
      → Covered m [] (reconcile_tasks cfg env ts d).db.tasks
  unfolding reconcile_tasks
  reconcile_tasks-Covered [] d c = c
  reconcile_tasks-Covered (t ∷ ts) d c = elim (Bool-cases (is_running t.status)) [
    | inl e ↦
        rw (e, reconcile_tasks)
          (reconcile_tasks-Covered ts (reconcile_task cfg env t d)
            (reconcile_task-Covered t ts d c))
    | inr e ↦
        rw (e, reconcile_tasks) (reconcile_tasks-Covered ts d (skip_task m t ts d.db.tasks e c))
  ]

  -- With a named mission, no task of it is RUNNING after the reconciliation, whatever an interrupted run has
  -- left behind.
  pub reconcile_stale_tasks-idle :
      (d : Drive W)
      → All
          (λ r. (r.mission_id == m) ≡ true → ¬ (is_running r.status ≡ true))
          (reconcile_stale_tasks cfg env d).db.tasks
  unfolding reconcile_stale_tasks
  reconcile_stale_tasks-idle d =
      rw (subst (λ o. truthy o ≡ true) (sym named) text, reconcile_stale_tasks)
        (reconcile_tasks-Covered (get_tasks (mission_key cfg) d.db) d (
          subst (λ k. Covered m (get_tasks k d.db) d.db.tasks)
            (sym (mission_key-named cfg m named text)) (get_tasks-Covered m d.db)))
