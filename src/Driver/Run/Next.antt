-- ===== src/Driver/Run/Next.antt =====
-- The next task of the loop of `run` is a ready task, and a row of the mission that waits.
use asc_orchestrator_v.Base.{
  String, ◌≡◌, ap, true, ◌==◌, some, List, [], ◌∷◌, map, Member, Any, inl, inr, ◌⊎◌, Bool-cases,
  head_or_none, select, str_eq_refl,
}
use asc_orchestrator_v.Base.Dict.{Dict, insert, values}
use asc_orchestrator_v.Models.{Task}
use asc_orchestrator_v.State.{TaskRow, Db, fetch_one}
use asc_orchestrator_v.State.Tasks.{has_key, row_to_task, get_tasks}
use asc_orchestrator_v.State.Tasks.Save.{row_of}
use asc_orchestrator_v.Dag.{as_dict, to_registry, add_tasks, get_runnable_tasks}
use asc_orchestrator_v.Dag.Ready.{IsReady}
use asc_orchestrator_v.Dag.Evaluate.{get_runnable_tasks_iff}
use asc_orchestrator_v.Driver.{Config, mission_key}
use asc_orchestrator_v.Driver.Run.{get_all_tasks, get_next_task}

Member-head : (t : Task) (ts : List Task) → head_or_none ts ≡ some t → Member t ts
Member-head t [] e = cc
Member-head t (u ∷ us) e = inl cc

Member-insert :
    (t : Task) (k : String) (u : Task) (d : Dict Task)
    → Member t (values (insert k u d))
    → (u ≡ t) ⊎ Member t (values d)
Member-insert t k u [] (inl e) = inl e
Member-insert t k u [] (inr m) = absurd m
Member-insert t k u ((j, v) ∷ d) m = elim (Bool-cases (j == k)) [
  | inl e ↦ replaced (rw e at m)
  | inr e ↦ kept (Member-insert t k u d) (rw e at m)
]
  where
    replaced : Member t (u ∷ values d) → (u ≡ t) ⊎ Member t (v ∷ values d)
    replaced (inl e) = inl e
    replaced (inr m) = inr (inr m)

    kept :
        (Member t (values (insert k u d)) → (u ≡ t) ⊎ Member t (values d))
        → Member t (v ∷ values (insert k u d))
        → (u ≡ t) ⊎ Member t (v ∷ values d)
    kept rest (inl e) = inr (inl e)
    kept rest (inr m) = elim (rest m) [ inl e ↦ inl e | inr n ↦ inr (inr n) ]

Member-add_tasks :
    (t : Task) (d : Dict Task) (ts : List Task)
    → Member t (values (add_tasks d ts))
    → Member t ts ⊎ Member t (values d)
unfolding add_tasks
Member-add_tasks t d [] m = inr m
Member-add_tasks t d (u ∷ us) m = elim (Member-add_tasks t (insert u.id u d) us m) [
  | inl n ↦ inl (inr n)
  | inr n ↦ (elim (Member-insert t u.id u d n) [ inl e ↦ inl (inl e) | inr k ↦ inr k ])
]

-- A row of the task's key that has its status.
abbrev pub HasRow : String → Task → List TaskRow → Type 0
HasRow m t rows = Any (λ r. (has_key m t.id r ≡ true) × (r.status ≡ t.status)) rows

Member-rows :
    (m : String) (t : Task) (rows : List TaskRow)
    → Member t (map (λ r. row_to_task (some r)) (select (λ r. r.mission_id == m) rows))
    → HasRow m t rows
unfolding row_to_task
Member-rows m t [] h = h
Member-rows m t (r ∷ rs) h = elim (Bool-cases (r.mission_id == m)) [
  | inl e ↦ split (Member-rows m t rs) e (rw e at h)
  | inr e ↦ inr (Member-rows m t rs (rw e at h))
]
  where
    split :
        (Member t (map (λ x. row_to_task (some x)) (select (λ x. x.mission_id == m) rs))
          → HasRow m t rs)
        → (r.mission_id == m) ≡ true
        → Member t (
            row_to_task (some r)
            ∷ map (λ x. row_to_task (some x)) (select (λ x. x.mission_id == m) rs))
        → HasRow m t (r ∷ rs)
    split rest e (inl same) =
        let id : r.id ≡ t.id = ap (λ u. u.id) same in
        let status : r.status ≡ t.status = ap (λ u. u.status) same in
        inl (rw (e, ← id) (str_eq_refl r.id), status)
    split rest e (inr k) = inr (rest k)

-- The task that the loop takes is ready among the tasks of the mission, and it is a row of the
-- mission.
pub get_next_task-IsReady :
    (cfg : Config) (db : Db) (t : Task)
    → get_next_task cfg db ≡ some t
    → IsReady (get_all_tasks cfg db) t × HasRow (mission_key cfg) t db.tasks
unfolding get_next_task get_all_tasks get_tasks to_registry
get_next_task-IsReady cfg db t e =
    let (listed, ready) =
      (get_runnable_tasks_iff t (as_dict (get_all_tasks cfg db))).0
        (Member-head t (get_runnable_tasks (as_dict (get_all_tasks cfg db))) e) in
    (
      ready,
      elim (Member-add_tasks t [] (get_tasks (mission_key cfg) db) listed) [
        | inl m ↦ Member-rows (mission_key cfg) t db.tasks m
        | inr m ↦ absurd m
      ],
    )

pub HasRow-row_of :
    (m : String) (t : Task) (db : Db)
    → HasRow m t db.tasks
    → (r : TaskRow) × (row_of m t.id db ≡ some r)
unfolding fetch_one
HasRow-row_of m t db h = go db.tasks h
  where
    go :
        (rows : List TaskRow)
        → HasRow m t rows
        → (r : TaskRow) × (fetch_one (has_key m t.id) rows ≡ some r)
    go [] h = absurd h
    go (r ∷ rs) h = elim (Bool-cases (has_key m t.id r)) [
      | inl e ↦ (r, rw e)
      | inr e ↦ (elim h [ inl (k, _) ↦ cc | inr n ↦ rw e (go rs n) ])
    ]
