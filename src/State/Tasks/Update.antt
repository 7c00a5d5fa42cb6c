-- ===== src/State/Tasks/Update.antt =====
-- `update_task_status` and `increment_attempt_count`: the row that they change, the rows that
-- they leave alone, and the keys of the table.
use asc_orchestrator_v.Base.{ℕ, ◌+◌, String, ◌≡◌, refl, ◌∙◌, true, some}
use asc_orchestrator_v.Base.Truthy.{truthy}
use asc_orchestrator_v.State.{Db, TaskRow, update_where, fetch_one}
use asc_orchestrator_v.State.Tasks.{has_key, scoped}
use asc_orchestrator_v.State.Tasks.Status.{
  StatusTarget, target_id, target_status, StatusFields, set_status, update_task_status, bump,
  coalesce, increment_attempt_count,
}
use asc_orchestrator_v.State.Tasks.Sql.{map_some, fetch_one-update_self, fetch_one-update_ne}
use asc_orchestrator_v.State.Tasks.Save.{row_of, has_key-apart}

scoped_named : (m i : String) → truthy (some m) ≡ true → scoped (some m) i ≡ has_key m i
scoped_named m i named = rw named

-- With a mission given, `update_task_status` gives the status to the one task of that mission and
-- id, and overwrites only the columns whose arguments are given.
pub update_task_status_row :
    (now : ℕ) (target : StatusTarget) (fields : StatusFields) (m : String) (db : Db)
    → truthy (some m) ≡ true
    → row_of m (target_id target) (update_task_status now target fields (some m) db)
      ≡ map_some (set_status now (target_status target) fields) (row_of m (target_id target) db)
unfolding update_task_status
update_task_status_row now target fields m db named = rw (scoped_named m (target_id target) named) (
    fetch_one-update_self (has_key m (target_id target)) (has_key m (target_id target)) _ db.tasks
      (λ r. unfold set_status in refl))

-- With a mission given, it leaves every task of another mission or of another id as it was.
pub update_task_status-others :
    (now : ℕ) (target : StatusTarget) (fields : StatusFields) (m n j : String) (db : Db)
    → truthy (some m) ≡ true
    → ¬ ((m ≡ n) × (target_id target ≡ j))
    → row_of n j (update_task_status now target fields (some m) db) ≡ row_of n j db
unfolding update_task_status
update_task_status-others now target fields m n j db named apart =
    rw (scoped_named m (target_id target) named) (
      fetch_one-update_ne (has_key m (target_id target)) (has_key n j) _ db.tasks
        (λ r h. has_key-apart m (target_id target) n j r apart h) (λ r. unfold set_status in refl))

-- With a mission given, the count that is returned for a known task is one more than the stored count, and it is stored;
-- nothing else of the row changes.
pub increment_attempt_count_row :
    (i m : String) (db : Db) (r : TaskRow)
    → truthy (some m) ≡ true
    → row_of m i db ≡ some r
    → let (count, after) = increment_attempt_count i (some m) db in
      (count ≡ coalesce r.attempt_count + 1)
      × (row_of m i after ≡ some (record r { attempt_count = some count }))
unfolding increment_attempt_count bump
increment_attempt_count_row i m db r named e =
    let found : fetch_one (has_key m i) (update_where (has_key m i) bump db.tasks) ≡ some (bump r) =
      (fetch_one-update_self (has_key m i) (has_key m i) bump db.tasks (λ x. refl) ∙ rw e) in
    rw (scoped_named m i named, found) (refl, refl)

-- With a mission given, it leaves every task of another mission or of another id as it was.
pub increment_attempt_count-others :
    (i m n j : String) (db : Db)
    → truthy (some m) ≡ true
    → ¬ ((m ≡ n) × (i ≡ j))
    → row_of n j (increment_attempt_count i (some m) db).1 ≡ row_of n j db
unfolding increment_attempt_count
increment_attempt_count-others i m n j db named apart = rw (scoped_named m i named) (
    fetch_one-update_ne (has_key m i) (has_key n j) bump db.tasks
      (λ r h. has_key-apart m i n j r apart h) (λ r. unfold bump in refl))
