-- ===== src/State/Missions/Resume.antt =====
-- Saving a mission again, as a restart does, keeps what has been done.
use asc_orchestrator_v.Base.{
  ℕ, String, ◌≡◌, refl, sym, ◌∙◌, ◌==◌, eq_iff, some, List, [], ◌∷◌, arith, Bool-cases, inl, inr,
  ◌⊎◌, subst,
}
use asc_orchestrator_v.Models.{Mission, MissionSpec, Task}
use asc_orchestrator_v.State.{Db, TaskRow}
use asc_orchestrator_v.State.Tasks.{save_task}
use asc_orchestrator_v.State.Tasks.Sql.{fetch_one-update_self}
use asc_orchestrator_v.State.Tasks.Save.{
  row_of, SameProgress, save_task-keeps_progress, save_task-others,
}
use asc_orchestrator_v.State.Missions.{
  is_mission, redefine_mission, save_mission_row, save_tasks, save_mission, get_mission,
}

-- The row of a key is still there, with the progress that it had.
abbrev Kept : String → String → TaskRow → Db → Type 0
Kept n j r db = (s : TaskRow) × (row_of n j db ≡ some s) × SameProgress r s

SameProgress-trans : {a b c : TaskRow} → SameProgress a b → SameProgress b c → SameProgress a c
SameProgress-trans p q = record {
  status = q.status ∙ p.status;
  attempt_count = q.attempt_count ∙ p.attempt_count;
  commit_sha = q.commit_sha ∙ p.commit_sha;
  started_at = q.started_at ∙ p.started_at;
  completed_at = q.completed_at ∙ p.completed_at;
  exit_code = q.exit_code ∙ p.exit_code;
}

same_key : (m n i j : String) → ((m ≡ n) × (i ≡ j)) ⊎ (¬ ((m ≡ n) × (i ≡ j)))
same_key m n i j = elim (Bool-cases (m == n)) [
  | inr e ↦ inr (λ (p, _). cc (e, (eq_iff m n).1 p))
  | inl e ↦ (elim (Bool-cases (i == j)) [
    | inl f ↦ inl ((eq_iff m n).0 e, (eq_iff i j).0 f)
    | inr f ↦ inr (λ (_, q). cc (f, (eq_iff i j).1 q))
  ])
]

save_task-Kept :
    (now : ℕ) (t : Task) (m n j : String) (r : TaskRow) (db : Db)
    → Kept n j r db
    → Kept n j r (save_task now t m db)
save_task-Kept now t m n j r db (s, found, same) = elim (same_key m n t.id j) [
  | inl (p, q) ↦
      let (u, e, kept, _) =
        save_task-keeps_progress now t m db s
          (subst (λ k. fetch_key k t.id) (sym p) (subst (λ k. fetch_key n k) (sym q) found)) in
      (u, subst (λ k. after k j u) p (subst (λ k. after m k u) q e), SameProgress-trans same kept)
  | inr apart ↦ (s, save_task-others now t m n j db apart ∙ found, same)
]
  where
    fetch_key : String → String → Type 0
    fetch_key a b = row_of a b db ≡ some s

    after : String → String → TaskRow → Type 0
    after a b u = row_of a b (save_task now t m db) ≡ some u

save_tasks-Kept :
    (time : Task → ℕ) (m n j : String) (r : TaskRow) (ts : List Task) (db : Db)
    → Kept n j r db
    → Kept n j r (save_tasks time m ts db)
unfolding save_tasks
save_tasks-Kept time m n j r [] db h = h
save_tasks-Kept time m n j r (t ∷ ts) db h =
    save_tasks-Kept time m n j r ts (save_task (time t) t m db)
      (save_task-Kept (time t) t m n j r db h)

-- Saving a mission keeps the status, the attempts, the commit, the times and the exit code of
-- every task that the database knows, of this mission or of another.
pub save_mission-keeps_progress :
    (now : ℕ) (time : Task → ℕ) (spec : MissionSpec) (n j : String) (db : Db) (r : TaskRow)
    → row_of n j db ≡ some r
    → (s : TaskRow) × (row_of n j (save_mission now time spec db) ≡ some s) × SameProgress r s
unfolding save_mission save_mission_row
save_mission-keeps_progress now time spec n j db r e =
    save_tasks-Kept time spec.id n j r spec.tasks _ (r, e, ground arith)

missions-save_tasks :
    (time : Task → ℕ) (m : String) (ts : List Task) (db : Db)
    → (save_tasks time m ts db).missions ≡ db.missions
unfolding save_tasks save_task
missions-save_tasks time m [] db = refl
missions-save_tasks time m (t ∷ ts) db = missions-save_tasks time m ts (save_task (time t) t m db)

-- Saving a known mission keeps its status and its creation time, and takes its goal from the
-- specification.
pub save_mission-keeps_status :
    (now : ℕ) (time : Task → ℕ) (spec : MissionSpec) (db : Db) (old : Mission)
    → get_mission spec.id db ≡ some old
    → (new : Mission) × (get_mission spec.id (save_mission now time spec db) ≡ some new)
      × (new.status ≡ old.status)
      × (new.created_at ≡ old.created_at)
      × (new.goal ≡ spec.goal)
unfolding save_mission save_mission_row get_mission redefine_mission
save_mission-keeps_status now time spec db old e = (
  redefine_mission now spec old,
  rw (missions-save_tasks, save_mission_row, e)
      (fetch_one-update_self (is_mission spec.id) (is_mission spec.id) (redefine_mission now spec)
          db.missions (λ r. refl)
        ∙ rw e),
  refl,
  refl,
  refl,
)
