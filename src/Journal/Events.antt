-- ===== src/Journal/Events.antt =====
-- src/asc_orchestrator/execution.py: the journal of execution events.
use asc_orchestrator_v.Base.{
  ℕ, ◌+◌, String, not, Option, none, some, List, [], ◌∷◌, ◌++◌, contains, if◌then◌else◌,
}
use asc_orchestrator_v.Journal.Chain.{Entry, verify_from}
use asc_orchestrator_v.Journal.Audit.{
  Line, blank, bad_json, entry, Result, ok, audit_error, last_hash,
}

-- The object of an event without `event_sha256`; `format` and `kind` are constants, and `detail` is
-- given by its text. A sequence that is no integer is none.
pub record Event : Type 0 where
  pub sequence : Option ℕ
  pub occurred_at : String
  pub event_type : String
  pub mission_id : String
  pub assignment_id : Option String
  pub actor_agent_id : String
  pub pese_revision : Option ℕ
  pub pese_state_sha256 : Option String
  pub previous_event_sha256 : Option String
  pub detail : String

-- What `append` raises: `EEFError` by its code, `AuditError`, or a line that is not JSON.
pub data EventError : Type 0 where
  invalid_event_type chain_broken invalid_sequence invalid_final_entry undecodable : EventError

pub data Recorded (A : Type 0) : Type 0 where
  done : A → Recorded A
  fails : EventError → Recorded A

-- `EVENT_TYPES`
abbrev pub event_types : List String
event_types =
    "SESSION_STARTED" ∷ "ASSIGNMENT_ACTIVATED" ∷ "ASSIGNMENT_DISPATCHED" ∷ "ASSIGNMENT_COMPLETED"
    ∷ "ASSIGNMENT_FAILED" ∷ "ASSIGNMENT_BLOCKED" ∷ "SCHEDULE_RESULT" ∷ "SESSION_PAUSED"
    ∷ "SESSION_RESUMED" ∷ "SESSION_CANCELLED" ∷ "SESSION_COMPLETED" ∷ "MILESTONE_ADVANCED"
    ∷ "GATE_STARTED" ∷ "GATE_PASSED" ∷ "GATE_FAILED" ∷ "GATE_BLOCKED" ∷ "GATE_INVALIDATED"
    ∷ "RISK_OPENED" ∷ "RISK_MITIGATED" ∷ "RISK_ACCEPTED" ∷ "RISK_RESOLVED" ∷ "RISK_HALTED"
    ∷ "AGENT_REGISTERED" ∷ "AGENT_ACTIVATED" ∷ "AGENT_READY" ∷ "AGENT_BUSY" ∷ "AGENT_BLOCKED"
    ∷ "AGENT_UNBLOCKED" ∷ "AGENT_FAILED" ∷ "AGENT_QUARANTINED" ∷ "AGENT_REPLACED" ∷ "AGENT_RELEASED"
    ∷ "AGENT_DEPENDENCY" ∷ "AGENT_HEARTBEAT" ∷ "AGENT_CHECKPOINTED" ∷ "RECOVERY_STARTED"
    ∷ "RECOVERY_COMPLETED" ∷ "RECOVERY_FAILED" ∷ "ETR_CHANNEL_BOUND" ∷ "ETR_CHANNEL_REVOKED"
    ∷ "ETR_SEALED" ∷ "ETR_UNSEALED" ∷ "ETR_AUTH_FAILED" ∷ "SCHEDULER_ENABLED" ∷ "SCHEDULER_DISABLED"
    ∷ "SCHEDULER_CYCLE_STARTED" ∷ "SCHEDULER_DECISION_MADE" ∷ "SCHEDULER_ACTION_EXECUTED"
    ∷ "SCHEDULER_CYCLE_COMPLETED" ∷ []

abbrev also : {B : Type 0} → Entry B → Option (List (Entry B)) → Option (List (Entry B))
also e none = none
also e (some es) = some (e ∷ es)

-- `events`, or none where a line is not JSON
unfoldable pub events : {B : Type 0} → List (Line B) → Option (List (Entry B))
events [] = some []
events (blank ∷ lines) = events lines
events (bad_json ∷ lines) = none
events (entry e ∷ lines) = also e (events lines)

-- `_next_sequence`
abbrev pub next_after : Option ℕ → Option ℕ
next_after none = none
next_after (some n) = some (n + 1)

unfoldable pub next_sequence : Option ℕ → List (Entry Event) → Option ℕ
next_sequence next [] = next
next_sequence next (e ∷ es) = next_sequence (next_after e.body.sequence) es

-- What the caller gives for an event.
pub record Given : Type 0 where
  pub occurred_at : String
  pub event_type : String
  pub mission_id : String
  pub assignment_id : Option String
  pub actor_agent_id : String
  pub pese_revision : Option ℕ
  pub pese_state_sha256 : Option String
  pub detail : String

abbrev pub event_link : Event → Option String
event_link e = e.previous_event_sha256

abbrev pub event_of : Given → ℕ → Option String → Event
event_of g sequence previous = record {
  sequence = some sequence;
  occurred_at = g.occurred_at;
  event_type = g.event_type;
  mission_id = g.mission_id;
  assignment_id = g.assignment_id;
  actor_agent_id = g.actor_agent_id;
  pese_revision = g.pese_revision;
  pese_state_sha256 = g.pese_state_sha256;
  previous_event_sha256 = previous;
  detail = g.detail;
}

-- `_event_hash` is the SHA-256 of the canonical JSON of the body.
module _ (digest : Event → String) where
  abbrev pub sealed_event : Event → Entry Event
  sealed_event e = record { body = e; own_hash = some (digest e) }

  abbrev pub record_after :
      Given → List (Line Event) → Option ℕ → Result (Option String) → Recorded (List (Line Event))
  record_after g lines none previous = fails invalid_sequence
  record_after g lines (some n) audit_error = fails invalid_final_entry
  record_after g lines (some n) (ok previous) =
      done (lines ++ (entry (sealed_event (event_of g n previous)) ∷ []))

  abbrev pub record_read :
      Given → List (Line Event) → Option (List (Entry Event)) → Recorded (List (Line Event))
  record_read g lines none = fails undecodable
  record_read g lines (some es) =
      if not (verify_from event_link digest none es)
      then fails chain_broken
      else record_after g lines (next_sequence (some 1) es) (last_hash lines)

  -- `append`
  unfoldable pub record_event : Given → List (Line Event) → Recorded (List (Line Event))
  unfolding verify_from events next_sequence last_hash
  record_event g lines =
      if not (contains g.event_type event_types)
      then fails invalid_event_type
      else record_read g lines (events lines)
