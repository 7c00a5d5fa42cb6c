-- ===== src/Agent/Calls.antt =====
-- src/asc_orchestrator/agent.py: what each method checks of the agent that it finds, and what it
-- asks the store to change.
use asc_orchestrator_v.Base.{
  String, Bool, true, false, Option, none, some, List, [], ◌∷◌, ◌==◌, if◌then◌else◌,
}
use asc_orchestrator_v.Base.Dict.{Dict}
use asc_orchestrator_v.Base.Truthy.{truthy, or_default}
use asc_orchestrator_v.Agent.Types.{
  AgentStatus, initializing, registered, ready, busy, blocked, failed, quarantined, replaced,
  released, DepStatus, verified, missing, mismatch, unknown, Interruption, Agent, AgcError,
  invalid_transition, dependency_unverified, same_status,
}

-- A method that manages an agent: its arguments, the checks after the authority's, the status
-- that it asks for, the body of `mutate`, and the event with the mission that it is filed under.
pub record Call : Type 0 where
  pub agent_id : String
  pub actor : String
  pub check : Agent → Option AgcError
  pub target : AgentStatus → AgentStatus
  pub change : Agent → Agent
  pub event_type : String
  pub event_mission : Agent → Option String

-- `if agent["status"] not in {…}: raise AGCError("INVALID_TRANSITION", …)`
abbrev pub expect_status : List AgentStatus → AgentStatus → Option AgcError
expect_status [] status = some invalid_transition
expect_status (s ∷ others) status =
    if same_status status s then none else expect_status others status

abbrev pub no_mission : Agent → Option String
no_mission agent = none

unfoldable pub activate : String → String → Call
activate agent_id actor = record {
  agent_id = agent_id;
  actor = actor;
  check = λ a. expect_status (initializing ∷ []) a.status;
  target = λ s. registered;
  change = λ a. record a { status = registered };
  event_type = "AGENT_ACTIVATED";
  event_mission = no_mission;
}

-- `_DEP_STATUSES`
abbrev pub dep_status : String → Option DepStatus
dep_status text =
    if text == "VERIFIED"
    then some verified
    else if text == "MISSING"
    then some missing
    else if text == "MISMATCH"
    then some mismatch
    else if text == "UNKNOWN"
    then some unknown
    else none

abbrev pub is_verified : DepStatus → Bool
is_verified verified = true
is_verified missing = false
is_verified mismatch = false
is_verified unknown = false

abbrev given : Option (Dict String) → Dict String → Dict String
given none old = old
given (some new) old = new

-- `verified_at or (now if status == "VERIFIED" else dep.get("verified_at"))`
abbrev verified_when : Option String → String → DepStatus → Option String → Option String
verified_when verified_at now status old =
    if truthy verified_at then verified_at else if is_verified status then some now else old

-- The call after `status not in _DEP_STATUSES`, which raises INVALID_DEP_STATUS.
unfoldable pub set_dependency :
    String
    → DepStatus
    → String
    → Option String
    → Option (Dict String)
    → Option (Dict String)
    → String
    → Call
set_dependency agent_id status actor verified_at tools environment now = record {
  agent_id = agent_id;
  actor = actor;
  check = λ a. none;
  target = λ s. s;
  change = λ a. record a {
    dependency = record {
      status = status;
      verified_at = verified_when verified_at now status a.dependency.verified_at;
      tool_dependencies = given tools a.dependency.tool_dependencies;
      environment_dependencies = given environment a.dependency.environment_dependencies;
    };
  };
  event_type = "AGENT_DEPENDENCY";
  event_mission = λ a. a.mission_id;
}

abbrev check_ready : Agent → Option AgcError
check_ready a =
    if same_status a.status registered
    then (if is_verified a.dependency.status then none else some dependency_unverified)
    else some invalid_transition

unfoldable pub make_ready : String → String → Call
make_ready agent_id actor = record {
  agent_id = agent_id;
  actor = actor;
  check = check_ready;
  target = λ s. ready;
  change = λ a. record a { status = ready };
  event_type = "AGENT_READY";
  event_mission = no_mission;
}

unfoldable pub claim : String → String → String → String → Call
claim agent_id mission_id assignment_id actor = record {
  agent_id = agent_id;
  actor = actor;
  check = λ a. expect_status (ready ∷ []) a.status;
  target = λ s. busy;
  change = λ a. record a {
    status = busy;
    mission_id = some mission_id;
    assignment_id = some assignment_id;
  };
  event_type = "AGENT_BUSY";
  event_mission = λ a. some mission_id;
}

unfoldable pub complete : String → String → Call
complete agent_id actor = record {
  agent_id = agent_id;
  actor = actor;
  check = λ a. expect_status (busy ∷ []) a.status;
  target = λ s. ready;
  change = λ a. record a { status = ready; mission_id = none; assignment_id = none };
  event_type = "AGENT_READY";
  event_mission = λ a. a.mission_id;
}

unfoldable pub block : String → String → Call
block agent_id actor = record {
  agent_id = agent_id;
  actor = actor;
  check = λ a. expect_status (ready ∷ busy ∷ []) a.status;
  target = λ s. blocked;
  change = λ a. record a { status = blocked };
  event_type = "AGENT_BLOCKED";
  event_mission = λ a. a.mission_id;
}

unfoldable pub unblock : String → String → Call
unblock agent_id actor = record {
  agent_id = agent_id;
  actor = actor;
  check = λ a. expect_status (blocked ∷ []) a.status;
  target = λ s. ready;
  change = λ a. record a { status = ready; mission_id = none; assignment_id = none };
  event_type = "AGENT_UNBLOCKED";
  event_mission = no_mission;
}

abbrev pub interrupted : String → String → Option Interruption
interrupted reason now = some (record { reason = reason; occurred_at = now })

unfoldable pub fail : String → String → String → String → Call
fail agent_id actor reason now = record {
  agent_id = agent_id;
  actor = actor;
  check = λ a. expect_status (ready ∷ busy ∷ blocked ∷ []) a.status;
  target = λ s. failed;
  change = λ a. record a { status = failed; interruption = interrupted reason now };
  event_type = "AGENT_FAILED";
  event_mission = λ a. a.mission_id;
}

unfoldable pub quarantine : String → String → String → String → Call
quarantine agent_id actor reason now = record {
  agent_id = agent_id;
  actor = actor;
  check = λ a. expect_status (ready ∷ busy ∷ blocked ∷ failed ∷ []) a.status;
  target = λ s. quarantined;
  change = λ a. record a { status = quarantined; interruption = interrupted reason now };
  event_type = "AGENT_QUARANTINED";
  event_mission = λ a. a.mission_id;
}

unfoldable pub replace : String → String → Call
replace agent_id actor = record {
  agent_id = agent_id;
  actor = actor;
  check = λ a. expect_status (quarantined ∷ failed ∷ []) a.status;
  target = λ s. replaced;
  change = λ a. record a { status = replaced };
  event_type = "AGENT_REPLACED";
  event_mission = λ a. a.mission_id;
}

unfoldable pub release : String → String → Call
release agent_id actor = record {
  agent_id = agent_id;
  actor = actor;
  check = λ a. if same_status a.status released then some invalid_transition else none;
  target = λ s. released;
  change = λ a. record a { status = released; mission_id = none; assignment_id = none };
  event_type = "AGENT_RELEASED";
  event_mission = λ a. a.mission_id;
}

-- `at or utc_now()`
unfoldable pub heartbeat : String → String → Option String → String → Call
heartbeat agent_id actor at now = record {
  agent_id = agent_id;
  actor = actor;
  check = λ a. none;
  target = λ s. s;
  change = λ a. record a { last_heartbeat_at = some (or_default at now) };
  event_type = "AGENT_HEARTBEAT";
  event_mission = λ a. a.mission_id;
}

unfoldable pub update_checkpoint : String → String → String → Call
update_checkpoint agent_id checkpoint_id actor = record {
  agent_id = agent_id;
  actor = actor;
  check = λ a. none;
  target = λ s. s;
  change = λ a. record a { last_checkpoint_id = some checkpoint_id };
  event_type = "AGENT_CHECKPOINTED";
  event_mission = λ a. a.mission_id;
}
