-- ===== src/Dag/Ready.antt =====
-- Readiness of a task, stated apart from the loop that decides it.
use asc_orchestrator_v.Base.{
  String, ◌≡◌, refl, ◌↔◌, true, some, List, [], ◌∷◌, All, arith, ◌⊎◌, inl, inr, Option-cases,
}
use asc_orchestrator_v.Base.Dict.{Dict, lookup}
use asc_orchestrator_v.Models.{Task, TaskStatus, is_completed, is_waiting}
use asc_orchestrator_v.Dag.{AllTasks, to_registry, dep_completed, deps_completed, is_task_ready}

abbrev pub DepDone : Dict Task → String → Type 0
DepDone registry dep =
    (u : Task) × (lookup dep registry ≡ some u) × (u.status ≡ TaskStatus.completed)

-- The task waits, and each of its dependencies is a task of the registry that is completed.
pub record IsReady (registry : Dict Task) (t : Task) : Type 0 where
  pub waiting : (t.status ≡ TaskStatus.pending) ⊎ (t.status ≡ TaskStatus.interrupted)
  pub done : All (DepDone registry) t.depends_on

is_completed→eq : (s : TaskStatus) → is_completed s ≡ true → s ≡ TaskStatus.completed
is_completed→eq s h = ground arith

dep_completed→DepDone :
    (registry : Dict Task) (dep : String)
    → dep_completed (lookup dep registry) ≡ true
    → DepDone registry dep
dep_completed→DepDone registry dep h = elim (Option-cases (lookup dep registry)) [
  | inl e ↦ absurd (ground arith)
  | inr (u, e) ↦ (u, e, is_completed→eq u.status (ground arith))
]

pub DepDone→dep_completed :
    (registry : Dict Task) (dep : String)
    → DepDone registry dep
    → dep_completed (lookup dep registry) ≡ true
DepDone→dep_completed registry dep (u, e, c) = ground arith

deps_completed_sound :
    (registry : Dict Task) (deps : List String)
    → deps_completed registry deps ≡ true
    → All (DepDone registry) deps
unfolding deps_completed
deps_completed_sound registry [] h = tt
deps_completed_sound registry (dep ∷ deps) h = (
  dep_completed→DepDone registry dep (ground arith),
  deps_completed_sound registry deps (ground arith),
)

pub deps_completed_complete :
    (registry : Dict Task) (deps : List String)
    → All (DepDone registry) deps
    → deps_completed registry deps ≡ true
unfolding deps_completed
deps_completed_complete registry [] h = refl
deps_completed_complete registry (dep ∷ deps) h =
    ground
      (arith, DepDone→dep_completed registry dep h.0, deps_completed_complete registry deps h.1)

is_waiting→cases :
    (s : TaskStatus) → is_waiting s ≡ true → (s ≡ TaskStatus.pending) ⊎ (s ≡ TaskStatus.interrupted)
is_waiting→cases s h = ground arith

is_waiting_of_cases :
    (s : TaskStatus) → (s ≡ TaskStatus.pending) ⊎ (s ≡ TaskStatus.interrupted) → is_waiting s ≡ true
is_waiting_of_cases s h = ground arith

-- A task is ready exactly when it is PENDING or INTERRUPTED and every dependency is a known,
-- COMPLETED task.
pub is_task_ready_iff :
    (task : Task) (all_tasks : AllTasks)
    → (is_task_ready task all_tasks ≡ true) ↔ IsReady (to_registry all_tasks) task
unfolding is_task_ready
is_task_ready_iff task all_tasks = (
  λ h. record {
    waiting = is_waiting→cases task.status (ground arith);
    done = deps_completed_sound (to_registry all_tasks) task.depends_on (ground arith);
  },
  λ r. ground (
    arith,
    is_waiting_of_cases task.status r.waiting,
    deps_completed_complete (to_registry all_tasks) task.depends_on r.done,
  ),
)
