-- ===== src/State/Tasks/Keys.antt =====
-- The composite key (mission_id, id) stays unique in the table of tasks.
use asc_orchestrator_v.Base.{
  ℕ, String, ◌≡◌, refl, Bool, Option, none, List, [], ◌∷◌, ◌++◌, arith, Bool-cases, Option-cases,
  inl, inr, eq_iff,
}
use asc_orchestrator_v.Models.{Task}
use asc_orchestrator_v.State.{Db, TaskRow, update_where, fetch_one}
use asc_orchestrator_v.State.Tasks.{has_key, redefine, new_row, save_rows, save_task}
use asc_orchestrator_v.State.Tasks.Status.{
  StatusTarget, StatusFields, set_status, update_task_status, bump, increment_attempt_count,
}

-- No two rows have the same mission and id.
abbrev pub HasUniqueKeys : List TaskRow → Type 0
HasUniqueKeys [] = Unit
HasUniqueKeys (r ∷ rs) = (fetch_one (has_key r.mission_id r.id) rs ≡ none) × HasUniqueKeys rs

-- `change` leaves the key of a row alone.
abbrev KeepsKey : (TaskRow → TaskRow) → Type 0
KeepsKey change = (r : TaskRow) → ((change r).mission_id ≡ r.mission_id) × ((change r).id ≡ r.id)

module _ (test : TaskRow → Bool) (change : TaskRow → TaskRow) (keep : KeepsKey change) where
  has_key-update :
      (m i : String) (rows : List TaskRow)
      → fetch_one (has_key m i) rows ≡ none
      → fetch_one (has_key m i) (update_where test change rows) ≡ none
  unfolding fetch_one update_where
  has_key-update m i [] h = refl
  has_key-update m i (r ∷ rs) h = ground (arith, keep r, has_key-update m i rs)

  update_where-HasUniqueKeys :
      (rows : List TaskRow) → HasUniqueKeys rows → HasUniqueKeys (update_where test change rows)
  unfolding update_where
  update_where-HasUniqueKeys [] h = tt
  update_where-HasUniqueKeys (r ∷ rs) h = elim (Bool-cases (test r)) [
    | inl e ↦
        rw (e, (keep r).0, (keep r).1)
          (has_key-update r.mission_id r.id rs h.0, update_where-HasUniqueKeys rs h.1)
    | inr e ↦ rw e (has_key-update r.mission_id r.id rs h.0, update_where-HasUniqueKeys rs h.1)
  ]

insert-HasUniqueKeys :
    (new : TaskRow) (rows : List TaskRow)
    → fetch_one (has_key new.mission_id new.id) rows ≡ none
    → HasUniqueKeys rows
    → HasUniqueKeys (rows ++ new ∷ [])
unfolding fetch_one
insert-HasUniqueKeys new [] absent h = (refl, tt)
insert-HasUniqueKeys new (r ∷ rs) absent h =
    (away rs h.0, insert-HasUniqueKeys new rs (ground arith) h.1)
  where
    away :
        (xs : List TaskRow)
        → fetch_one (has_key r.mission_id r.id) xs ≡ none
        → fetch_one (has_key r.mission_id r.id) (xs ++ new ∷ []) ≡ none
    away [] e = ground (
      arith,
      eq_iff new.mission_id r.mission_id,
      eq_iff new.id r.id,
      eq_iff r.mission_id new.mission_id,
      eq_iff r.id new.id,
    )
    away (x ∷ xs) e = ground (arith, away xs)

-- Saving a task keeps the keys unique.
pub save_task-HasUniqueKeys :
    (now : ℕ) (t : Task) (m : String) (db : Db)
    → HasUniqueKeys db.tasks
    → HasUniqueKeys (save_task now t m db).tasks
unfolding save_task save_rows new_row
save_task-HasUniqueKeys now t m db h = elim (Option-cases (fetch_one (has_key m t.id) db.tasks)) [
  | inl e ↦ rw (e, save_task, save_rows) (insert-HasUniqueKeys (new_row now t m) db.tasks e h)
  | inr (r, e) ↦
      rw (e, save_task, save_rows)
        (update_where-HasUniqueKeys _ (redefine now t) (λ x. unfold redefine in (refl, refl))
          db.tasks h)
]

-- A change of status keeps them unique, and so does counting an attempt.
pub update_task_status-HasUniqueKeys :
    (now : ℕ) (target : StatusTarget) (fields : StatusFields) (m : Option String) (db : Db)
    → HasUniqueKeys db.tasks
    → HasUniqueKeys (update_task_status now target fields m db).tasks
unfolding update_task_status set_status
update_task_status-HasUniqueKeys now target fields m db h =
    update_where-HasUniqueKeys _ _ (λ x. (refl, refl)) db.tasks h

pub increment_attempt_count-HasUniqueKeys :
    (id : String) (m : Option String) (db : Db)
    → HasUniqueKeys db.tasks
    → HasUniqueKeys (increment_attempt_count id m db).1.tasks
unfolding increment_attempt_count bump
increment_attempt_count-HasUniqueKeys id m db h =
    update_where-HasUniqueKeys _ _ (λ x. (refl, refl)) db.tasks h
