-- ===== src/Agent/Types.antt =====
-- src/asc_orchestrator/agent.py and pese.py: the agents in the state, and what AGC raises.
use asc_orchestrator_v.Base.{ℕ, String, Bool, Option, nat_eq}
use asc_orchestrator_v.Base.Dict.{Dict}
use asc_orchestrator_v.Pese.Types.{Code, Outcome}

-- The statuses that AGC writes.
pub data AgentStatus : Type 0 where
  initializing registered ready busy blocked failed quarantined replaced released : AgentStatus

pub data DepStatus : Type 0 where
  verified missing mismatch unknown : DepStatus

-- `dependency_environment_state`. The two objects hold JSON values by their texts.
pub record Dependency : Type 0 where
  pub status : DepStatus
  pub verified_at : Option String
  pub tool_dependencies : Dict String
  pub environment_dependencies : Dict String

pub record Interruption : Type 0 where
  pub reason : String
  pub occurred_at : String

pub record Agent : Type 0 where
  pub agent_id : String
  pub status : AgentStatus
  pub mission_id : Option String
  pub assignment_id : Option String
  pub manifest_version : Option String
  pub last_heartbeat_at : Option String
  pub last_checkpoint_id : Option String
  pub acr_ref : String
  pub dependency : Dependency
  pub interruption : Option Interruption

-- The project state: `agent_state.agents`, and the other components.
pub record System (R : Type 0) : Type 0 where
  pub agents : Dict Agent
  pub rest : R

-- `AGCError`, by its code.
pub data AgcError : Type 0 where
  invalid_agent invalid_acr_ref unauthorized duplicate_agent agent_not_found : AgcError
  invalid_transition invalid_dep_status dependency_unverified : AgcError

-- An event that is handed to the journal: its type and its mission.
pub record Emitted : Type 0 where
  pub event_type : String
  pub mission_id : String

-- What a method does: it raises an `AGCError`, lets a `PESEError` through, or returns an outcome
-- and emits an event or none.
pub data Reply (R : Type 0) : Type 0 where
  raises : AgcError → Reply R
  lets_through : Code → Reply R
  returns : Outcome (System R) → Option Emitted → Reply R

abbrev pub status_number : AgentStatus → ℕ
status_number initializing = 0
status_number registered = 1
status_number ready = 2
status_number busy = 3
status_number blocked = 4
status_number failed = 5
status_number quarantined = 6
status_number replaced = 7
status_number released = 8

abbrev pub same_status : AgentStatus → AgentStatus → Bool
same_status s t = nat_eq (status_number s) (status_number t)

-- The status as text, as a transition records it.
abbrev pub status_text : AgentStatus → String
status_text initializing = "INITIALIZING"
status_text registered = "REGISTERED"
status_text ready = "READY"
status_text busy = "BUSY"
status_text blocked = "BLOCKED"
status_text failed = "FAILED"
status_text quarantined = "QUARANTINED"
status_text replaced = "REPLACED"
status_text released = "RELEASED"
