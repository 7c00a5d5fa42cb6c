-- ===== src/Dag.antt =====
-- src/asc/dag.py: which tasks of a mission are ready, and the state of the mission.
pub mod Ready
pub mod Evaluate
pub mod Progress
mod Tests
use asc_orchestrator_v.Base.{
  ℕ, String, Bool, true, false, not, ◌&&◌, Option, none, some, List, [], ◌∷◌, ltb, nat_eq,
  if◌then◌else◌, length, select, count_if, nonempty, map,
}
use asc_orchestrator_v.Base.Dict.{Dict, lookup, insert, values}
use asc_orchestrator_v.Models.{
  Task, TaskStatus, SchedulerState, is_completed, is_running, is_waiting,
}

pub record MissionEvaluationResult : Type 0 where
  pub state : SchedulerState
  pub runnable_tasks : List Task
  pub blocked_ids : List String

-- `Union[List[Task], Dict[str, Task]]`
pub data AllTasks : Type 0 where
  as_list : List Task → AllTasks
  as_dict : Dict Task → AllTasks

-- `{t.id: t for t in tasks}`, from the tasks that are left and the dictionary so far
unfoldable pub add_tasks : Dict Task → List Task → Dict Task
add_tasks d [] = d
add_tasks d (t ∷ ts) = add_tasks (insert t.id t d) ts

unfoldable pub to_registry : AllTasks → Dict Task
unfolding add_tasks
to_registry (as_list tasks) = add_tasks [] tasks
to_registry (as_dict registry) = registry

-- `dep_task and dep_task.status == TaskStatus.COMPLETED`
abbrev pub dep_completed : Option Task → Bool
dep_completed none = false
dep_completed (some t) = is_completed t.status

-- The loop over `depends_on`.
unfoldable pub deps_completed : Dict Task → List String → Bool
deps_completed registry [] = true
deps_completed registry (dep ∷ deps) =
    if dep_completed (lookup dep registry) then deps_completed registry deps else false

unfoldable pub is_task_ready : Task → AllTasks → Bool
unfolding deps_completed
is_task_ready task all_tasks =
    if is_waiting task.status then deps_completed (to_registry all_tasks) task.depends_on else false

unfoldable pub get_runnable_tasks : AllTasks → List Task
get_runnable_tasks all_tasks =
    let registry = to_registry all_tasks in
    select (λ t. is_task_ready t (as_dict registry)) (values registry)

abbrev pub task_completed : Task → Bool
task_completed t = is_completed t.status

abbrev pub task_running : Task → Bool
task_running t = is_running t.status

-- The tasks that a BLOCKED result names.
abbrev pub task_stuck : Task → Bool
task_stuck t = not (is_completed t.status) && not (is_running t.status)

-- The mission's id is an argument of the function, which does not read it.
unfoldable pub evaluate_mission : String → AllTasks → MissionEvaluationResult
evaluate_mission mission_id all_tasks =
    let registry = to_registry all_tasks in
    let tasks = values registry in
    let total = length registry in
    let runnable = get_runnable_tasks (as_dict registry) in
    if nat_eq (count_if task_completed tasks) total && ltb 0 total
    then record { state = SchedulerState.complete; runnable_tasks = []; blocked_ids = [] }
    else if nonempty (select task_running tasks)
    then record { state = SchedulerState.running; runnable_tasks = runnable; blocked_ids = [] }
    else if nonempty runnable
    then record { state = SchedulerState.runnable; runnable_tasks = runnable; blocked_ids = [] }
    else record {
      state = SchedulerState.blocked;
      runnable_tasks = [];
      blocked_ids = map (λ t. t.id) (select task_stuck tasks);
    }
