-- ===== src/State/Missions.antt =====
-- src/asc/state.py: `save_mission`, `get_mission`, `get_last_mission_id`, `get_all_missions` and
-- `update_mission_status`, for a mission that is given as a `MissionSpec`.
pub mod Resume
use asc_orchestrator_v.Base.{
  ℕ, zero, suc, String, Bool, true, false, ◌==◌, Option, none, some, List, [], ◌∷◌, ◌++◌, ltb,
  if◌then◌else◌,
}
use asc_orchestrator_v.Base.Truthy.{or_text, or_default, or_number, or_number_default}
use asc_orchestrator_v.Models.{Mission, MissionSpec, Task}
use asc_orchestrator_v.State.{Db, update_where, fetch_one}
use asc_orchestrator_v.State.Tasks.{save_task}

abbrev pub is_mission : String → Mission → Bool
is_mission id r = r.id == id

-- The UPDATE of `save_mission`, which leaves the status and the creation time alone.
unfoldable pub redefine_mission : ℕ → MissionSpec → Mission → Mission
redefine_mission now spec r = record r {
  goal = spec.goal;
  updated_at = now;
  executor = some (or_default spec.executor spec.defaults.executor);
  working_directory = or_text spec.working_directory spec.defaults.working_directory;
  model = or_text spec.model spec.defaults.model;
  execution_timeout =
      some (or_number_default spec.execution_timeout spec.defaults.execution_timeout);
  verification_timeout =
      some (or_number_default spec.verification_timeout spec.defaults.verification_timeout);
  max_attempts = some spec.defaults.max_attempts;
}

-- The INSERT of `save_mission`.
unfoldable pub new_mission : ℕ → MissionSpec → Mission
unfolding redefine_mission
new_mission now spec = redefine_mission now spec (record {
  id = spec.id;
  goal = spec.goal;
  status = "PENDING";
  created_at = now;
  updated_at = now;
  executor = none;
  working_directory = none;
  model = none;
  execution_timeout = none;
  verification_timeout = none;
  max_attempts = none;
})

unfoldable pub save_mission_row : ℕ → MissionSpec → Db → Db
save_mission_row now spec db = record db {
  missions = elim (fetch_one (is_mission spec.id) db.missions) [
    | some _ ↦ update_where (is_mission spec.id) (redefine_mission now spec) db.missions
    | none ↦ db.missions ++ new_mission now spec ∷ []
  ];
}

-- The loop over the tasks; `time` is the clock's reading at each.
unfoldable pub save_tasks : (Task → ℕ) → String → List Task → Db → Db
save_tasks time mission_id [] db = db
save_tasks time mission_id (t ∷ ts) db =
    save_tasks time mission_id ts (save_task (time t) t mission_id db)

unfoldable pub save_mission : ℕ → (Task → ℕ) → MissionSpec → Db → Db
save_mission now time spec db = save_tasks time spec.id spec.tasks (save_mission_row now spec db)

unfoldable pub create_mission : ℕ → (Task → ℕ) → MissionSpec → Db → Db
create_mission now time spec db = save_mission now time spec db

unfoldable pub get_mission : String → Db → Option Mission
get_mission mission_id db = fetch_one (is_mission mission_id) db.missions

-- `ORDER BY updated_at DESC`; rows with equal times stay in the order of the table.
insert_newest : Mission → List Mission → List Mission
insert_newest m [] = m ∷ []
insert_newest m (n ∷ ns) =
    if ltb m.updated_at n.updated_at then n ∷ insert_newest m ns else m ∷ n ∷ ns

by_update : List Mission → List Mission
by_update [] = []
by_update (m ∷ ms) = insert_newest m (by_update ms)

-- `LIMIT n`
abbrev pub limit_to {ℓ} : {A : Type ℓ} → ℕ → List A → List A
limit_to zero xs = []
limit_to (suc n) [] = []
limit_to (suc n) (x ∷ xs) = x ∷ limit_to n xs

unfoldable pub get_all_missions : ℕ → Db → List Mission
unfolding by_update insert_newest
get_all_missions limit db = limit_to limit (by_update db.missions)

abbrev first_id : List Mission → Option String
first_id [] = none
first_id (m ∷ _) = some m.id

unfoldable pub get_last_mission_id : Db → Option String
unfolding by_update insert_newest
get_last_mission_id db = first_id (limit_to 1 (by_update db.missions))

unfoldable pub update_mission_status : ℕ → String → String → Db → Db
update_mission_status now mission_id status db = record db {
  missions =
      update_where (is_mission mission_id) (λ r. record r { status = status; updated_at = now })
        db.missions;
}
