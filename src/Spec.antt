-- ===== src/Spec.antt =====
-- src/asc/spec.py: `_parse_dict`, from the dictionary that the JSON or YAML parser gives. A key that
-- is missing is `none`. Values of a type that the code does not test for, and would pass on or fail
-- on, are left out.
pub mod Mission
pub mod Ordered
mod Tests
use asc_orchestrator_v.Base.{
  ℕ, suc, String, Bool, true, false, ◌==◌, Option, none, some, List, [], ◌∷◌, if◌then◌else◌,
  contains, head_or_none,
}
use asc_orchestrator_v.Base.Dict.{Dict}
use asc_orchestrator_v.Base.Truthy.{or_text, or_default, or_number_default}
use asc_orchestrator_v.Models.{
  Task, TaskStatus, VerificationCommand, MissionDefaults, MissionSpec, post_init,
}
use asc_orchestrator_v.Verifier.{CommandLike, of_text, of_command, command_object}

pub data CommandItem : Type 0 where
  item : CommandLike → CommandItem
  other_item : CommandItem

pub data CommandData : Type 0 where
  one : CommandLike → CommandData
  many : List CommandItem → CommandData
  other_command : CommandData

pub data DependsData : Type 0 where
  depends_list : List String → DependsData
  other_depends : DependsData

pub record TaskFields : Type 0 where
  pub id : Option String
  pub title : Option String
  pub prompt : Option String
  pub depends_on : Option DependsData
  pub command : Option CommandData
  pub verify : Option CommandData
  pub executor : Option String
  pub working_directory : Option String
  pub model : Option String
  pub execution_timeout : Option ℕ
  pub commit_paths : Option (List String)
  pub metadata : Option (Dict ℕ)

pub data TaskData : Type 0 where
  task_dict : TaskFields → TaskData
  other_task : TaskData

pub record DefaultsFields : Type 0 where
  pub max_attempts : Option ℕ
  pub execution_timeout : Option ℕ
  pub verification_timeout : Option ℕ
  pub executor : Option String
  pub working_directory : Option String
  pub model : Option String
  pub system_changes : Option String

pub data DefaultsData : Type 0 where
  defaults_object : MissionDefaults → DefaultsData
  defaults_dict : DefaultsFields → DefaultsData
  other_defaults : DefaultsData

pub data TasksData : Type 0 where
  task_list : List TaskData → TasksData
  other_tasks : TasksData

pub record MissionData : Type 0 where
  pub id : Option String
  pub goal : Option String
  pub tasks : Option TasksData
  pub defaults : Option DefaultsData
  pub executor : Option String
  pub working_directory : Option String
  pub model : Option String
  pub execution_timeout : Option ℕ
  pub verification_timeout : Option ℕ
  pub system_changes : Option String

-- The texts of the `ValueError`s, by what they name.
pub data SpecError : Type 0 where
  missing_field : String → SpecError
  tasks_not_list : SpecError
  task_not_dictionary : ℕ → SpecError
  task_missing_id : ℕ → SpecError
  task_missing_field : String → String → SpecError
  duplicate_ids : SpecError
  depends_not_list : String → SpecError
  depends_on_itself : String → SpecError
  missing_dependency : String → SpecError

pub data Parsed (A : Type 0) : Type 0 where
  parsed : A → Parsed A
  rejected : SpecError → Parsed A

abbrev pub or_value {ℓ} : {A : Type ℓ} → Option A → A → A
or_value none d = d
or_value (some a) d = a

unfoldable pub item_commands : List CommandItem → List VerificationCommand
item_commands [] = []
item_commands (item c ∷ items) = command_object c ∷ item_commands items
item_commands (other_item ∷ items) = item_commands items

abbrev pub data_commands : Option CommandData → List VerificationCommand
data_commands none = []
data_commands (some (one c)) = command_object c ∷ []
data_commands (some (many items)) = item_commands items
data_commands (some other_command) = []

abbrev pub command_or_verify : TaskFields → Option CommandData
command_or_verify t = elim t.command [ some c ↦ some c | none ↦ t.verify ]

unfoldable pub build_task : TaskFields → String → String → String → List String → Task
unfolding post_init
build_task t id title prompt depends_on = post_init (record {
  id = id;
  title = title;
  prompt = prompt;
  status = TaskStatus.pending;
  depends_on = depends_on;
  command = head_or_none (data_commands (command_or_verify t));
  commands = data_commands (command_or_verify t);
  metadata = or_value t.metadata [];
  started_at = none;
  completed_at = none;
  commit_sha = none;
  executor = t.executor;
  working_directory = t.working_directory;
  model = t.model;
  execution_timeout = t.execution_timeout;
  commit_paths = t.commit_paths;
})

-- The first dependency that is no id so far.
unfoldable pub first_missing : List String → List String → Option String
first_missing task_ids [] = none
first_missing task_ids (d ∷ ds) = if contains d task_ids then first_missing task_ids ds else some d

-- The tests on the dependencies of a task, whose id is among the ids so far.
unfoldable pub check_depends : String → List String → List String → Option SpecError
unfolding first_missing
check_depends id task_ids depends_on =
    if contains id depends_on
    then some (depends_on_itself id)
    else elim (first_missing task_ids depends_on) [
      | none ↦ none
      | some d ↦ some (missing_dependency d)
    ]

abbrev given_depends : Option DependsData → Option (List String)
given_depends none = some []
given_depends (some (depends_list ds)) = some ds
given_depends (some other_depends) = none

-- A task whose fields are there.
unfoldable pub parse_fields : TaskFields → String → String → String → List String → Parsed Task
unfolding check_depends build_task
parse_fields t id title prompt task_ids =
    if contains id task_ids then rejected duplicate_ids else elim (given_depends t.depends_on) [
      | none ↦ rejected (depends_not_list id)
      | some ds ↦ (elim (check_depends id (id ∷ task_ids) ds) [
        | none ↦ parsed (build_task t id title prompt ds)
        | some e ↦ rejected e
      ])
    ]

unfoldable pub parse_task : ℕ → List String → TaskData → Parsed Task
unfolding parse_fields
parse_task i task_ids other_task = rejected (task_not_dictionary i)
parse_task i task_ids (task_dict t) = elim t.id [
  | none ↦ rejected (task_missing_id i)
  | some id ↦ (elim t.title [
    | none ↦ rejected (task_missing_field id "title")
    | some title ↦ (elim t.prompt [
      | none ↦ rejected (task_missing_field id "prompt")
      | some prompt ↦ parse_fields t id title prompt task_ids
    ])
  ])
]

abbrev add_task : Task → Parsed (List Task) → Parsed (List Task)
add_task t (parsed ts) = parsed (t ∷ ts)
add_task t (rejected e) = rejected e

-- The loop over the tasks.
unfoldable pub parse_tasks : ℕ → List String → List TaskData → Parsed (List Task)
unfolding parse_task
parse_tasks i task_ids [] = parsed []
parse_tasks i task_ids (d ∷ ds) = elim (parse_task i task_ids d) [
  | rejected e ↦ rejected e
  | parsed t ↦ add_task t (parse_tasks (suc i) (t.id ∷ task_ids) ds)
]
