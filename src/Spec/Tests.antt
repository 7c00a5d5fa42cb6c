-- ===== src/Spec/Tests.antt =====
-- The theorems on src/asc/spec.py at a mission of two tasks.
use asc_orchestrator_v.Base.{String, ◌≡◌, refl, Option, none, some, [], ◌∷◌, All, arith}
use asc_orchestrator_v.Models.{TaskStatus, MissionSpec, SchedulerState}
use asc_orchestrator_v.Verifier.{of_text}
use asc_orchestrator_v.Dag.{as_list, evaluate_mission}
use asc_orchestrator_v.Dag.Progress.{IsOrdered}
use asc_orchestrator_v.Spec.{
  one, DependsData, depends_list, TaskFields, task_dict, task_list, MissionData, parsed, build_task,
  first_missing, check_depends, parse_fields, parse_task, parse_tasks,
}
use asc_orchestrator_v.Spec.Mission.{build_spec, parse_defaults, with_tasks, parse_dict}
use asc_orchestrator_v.Spec.Ordered.{parse_dict-IsOrdered, parse_dict-runnable}

abbrev fields_of : String → Option DependsData → TaskFields
fields_of id depends_on = record {
  id = some id;
  title = some "Task";
  prompt = some "Do it";
  depends_on = depends_on;
  command = none;
  verify = some (one (of_text "true"));
  executor = none;
  working_directory = none;
  model = none;
  execution_timeout = none;
  commit_paths = none;
  metadata = none;
}

abbrev mission : MissionData
mission = record {
  id = some "m";
  goal = some "Goal";
  tasks = some (
      task_list (
        task_dict (fields_of "a" none)
        ∷ task_dict (fields_of "b" (some (depends_list ("a" ∷ []))))
        ∷ []));
  defaults = none;
  executor = none;
  working_directory = none;
  model = none;
  execution_timeout = none;
  verification_timeout = none;
  system_changes = none;
}

abbrev spec : MissionSpec
spec = build_spec mission "m" "Goal" (parse_defaults none) (
    build_task (fields_of "a" none) "a" "Task" "Do it" []
    ∷ build_task (fields_of "b" (some (depends_list ("a" ∷ [])))) "b" "Task" "Do it" ("a" ∷ [])
    ∷ [])

accepted : parse_dict mission ≡ parsed spec
unfolding parse_dict with_tasks parse_tasks parse_task parse_fields check_depends first_missing
    build_task
accepted = refl

parse_dict-IsOrdered_example :
    IsOrdered [] spec.tasks × All (λ t. t.status ≡ TaskStatus.pending) spec.tasks
parse_dict-IsOrdered_example = parse_dict-IsOrdered mission spec accepted

parse_dict-runnable_example :
    (evaluate_mission spec.id (as_list spec.tasks)).state ≡ SchedulerState.runnable
parse_dict-runnable_example =
    parse_dict-runnable mission spec accepted (unfold build_spec in omega arith)
