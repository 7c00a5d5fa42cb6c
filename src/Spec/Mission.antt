-- ===== src/Spec/Mission.antt =====
-- src/asc/spec.py: `_parse_dict`, for the whole mission.
use asc_orchestrator_v.Base.{String, Option, none, some, List, []}
use asc_orchestrator_v.Base.Truthy.{or_text, or_default, or_number_default}
use asc_orchestrator_v.Models.{Task, MissionDefaults, MissionSpec}
use asc_orchestrator_v.Spec.{
  DefaultsData, defaults_object, defaults_dict, other_defaults, task_list, other_tasks, MissionData,
  missing_field, tasks_not_list, Parsed, parsed, rejected, or_value, parse_tasks,
}

-- `MissionDefaults()`
abbrev pub no_defaults : MissionDefaults
no_defaults = record {
  max_attempts = 3;
  execution_timeout = 600;
  verification_timeout = 300;
  executor = "omp";
  working_directory = none;
  model = none;
  system_changes = "DENIED";
}

unfoldable pub parse_defaults : Option DefaultsData → MissionDefaults
parse_defaults none = no_defaults
parse_defaults (some (defaults_object d)) = d
parse_defaults (some (defaults_dict d)) = record {
  max_attempts = or_value d.max_attempts 3;
  execution_timeout = or_value d.execution_timeout 600;
  verification_timeout = or_value d.verification_timeout 300;
  executor = or_value d.executor "omp";
  working_directory = d.working_directory;
  model = d.model;
  system_changes = or_value d.system_changes "DENIED";
}
parse_defaults (some other_defaults) = no_defaults

unfoldable pub build_spec :
    MissionData → String → String → MissionDefaults → List Task → MissionSpec
build_spec m id goal d tasks = record {
  id = id;
  goal = goal;
  tasks = tasks;
  defaults = d;
  executor = some (or_default m.executor d.executor);
  working_directory = or_text m.working_directory d.working_directory;
  model = or_text m.model d.model;
  execution_timeout = some (or_number_default m.execution_timeout d.execution_timeout);
  verification_timeout = some (or_number_default m.verification_timeout d.verification_timeout);
  system_changes = or_default m.system_changes (or_default (some d.system_changes) "DENIED");
}

-- The mission from its tasks, or the error that one of them has led to.
unfoldable pub with_tasks : MissionData → String → String → Parsed (List Task) → Parsed MissionSpec
unfolding build_spec parse_defaults
with_tasks m id goal (parsed ts) = parsed (build_spec m id goal (parse_defaults m.defaults) ts)
with_tasks m id goal (rejected e) = rejected e

unfoldable pub parse_dict : MissionData → Parsed MissionSpec
unfolding with_tasks parse_tasks
parse_dict m = elim m.id [
  | none ↦ rejected (missing_field "id")
  | some id ↦ (elim m.goal [
    | none ↦ rejected (missing_field "goal")
    | some goal ↦ (elim m.tasks [
      | none ↦ rejected (missing_field "tasks")
      | some other_tasks ↦ rejected tasks_not_list
      | some (task_list ds) ↦ with_tasks m id goal (parse_tasks 0 [] ds)
    ])
  ])
]
