-- ===== src/Agent/Perform.antt =====
-- src/asc_orchestrator/agent.py: the course of every method. The state is loaded and the checks
-- are made; then `_transition` loads again and asks the store for an update.
use asc_orchestrator_v.Base.{
  ℕ, String, true, false, not, ◌⊎◌, inl, inr, Option, none, some, [], ◌∷◌, ◌==◌, if◌then◌else◌,
}
use asc_orchestrator_v.Base.Dict.{Dict, lookup, insert}
use asc_orchestrator_v.Base.Truthy.{or_default}
use asc_orchestrator_v.Base.Text.{first_chars}
use asc_orchestrator_v.Pese.Types.{
  Code, updated, halted, state_corrupt, other_code, raised, Outcome, Request, Disk, Moment, Rules,
}
use asc_orchestrator_v.Pese.Update.{report, Owned, load}
use asc_orchestrator_v.Pese.Commit.{update}
use asc_orchestrator_v.Agent.Types.{
  AgentStatus, initializing, unknown, Agent, System, AgcError, invalid_agent, invalid_dep_status,
  invalid_acr_ref, unauthorized, duplicate_agent, agent_not_found, Emitted, Reply, raises,
  lets_through, returns, status_text,
}
use asc_orchestrator_v.Agent.Ledger.{
  actor_orchestrator, with_agents, change_agent, require_authority,
}
use asc_orchestrator_v.Agent.Calls.{Call, dep_status, set_dependency}

-- The outcome where the state could not be loaded, and the codes that `load` lets through.
abbrev pub not_loaded : {R : Type 0} → Code → Reply R
not_loaded state_corrupt =
    returns (report halted (raised (other_code "STATE_LOAD_FAILED") ∷ [])) none
not_loaded other = lets_through other

-- The checks of a method on the agents of the first load: what it raises, or the agent.
unfoldable pub checked : Call → Dict Agent → AgcError ⊎ Agent
unfolding require_authority
checked call agents = elim (lookup call.agent_id agents) [
  | none ↦ inl agent_not_found
  | some agent ↦ elim (require_authority call.actor call.agent_id) [
    | some error ↦ inl error
    | none ↦ elim (call.check agent) [ some error ↦ inl error | none ↦ inr agent ]
  ]
]

-- `_DEFAULT_DEP` and the record of a new agent.
abbrev pub new_agent : String → String → Agent
new_agent agent_id acr_ref = record {
  agent_id = agent_id;
  status = initializing;
  mission_id = none;
  assignment_id = none;
  manifest_version = none;
  last_heartbeat_at = none;
  last_checkpoint_id = none;
  acr_ref = acr_ref;
  dependency = record {
    status = unknown;
    verified_at = none;
    tool_dependencies = [];
    environment_dependencies = [];
  };
  interruption = none;
}

-- The checks of `register` before the state is loaded.
unfoldable pub register_refused : String → String → String → Option AgcError
unfolding first_chars
register_refused agent_id acr_ref actor =
    if agent_id == ""
    then some invalid_agent
    else if first_chars 19 agent_id == "AGENT:orchestrator:"
    then some invalid_agent
    else if acr_ref == ""
    then some invalid_acr_ref
    else if not (actor == actor_orchestrator)
    then some unauthorized
    else none

module _ {R X : Type 0} (rules : Rules (System R) X) where
  -- What a transition asks of the store.
  abbrev pub transition_request :
      String
      → String
      → Option AgentStatus
      → AgentStatus
      → (Dict Agent → Dict Agent)
      → ℕ
      → Request (System R)
  transition_request actor agent_id before after change revision = record {
    expected_revision = revision;
    actor = actor;
    transition_type = "AGENT_STATUS";
    subject = agent_id;
    from_value = elim before [ none ↦ none | some s ↦ some (status_text s) ];
    to_value = status_text after;
    mutate = λ s. record s { agents = change s.agents };
    evidence_refs = [];
  }

  abbrev pub emitted : String → Option String → Outcome (System R) → Option Emitted
  emitted event_type mission outcome = elim outcome.code [
    | updated ↦ some (record { event_type = event_type; mission_id = or_default mission "SYSTEM" })
    | other ↦ none
  ]

  abbrev pub reply_with :
      String
      → Option String
      → Disk (System R) X × Owned × Outcome (System R)
      → Disk (System R) X × Owned × Reply R
  reply_with event_type mission (d, own, outcome) =
      (d, own, returns outcome (emitted event_type mission outcome))

  -- `_transition` and the event: the second load gives the revision that the update expects.
  unfoldable pub transition :
      ℕ
      → Moment
      → String
      → String
      → Option AgentStatus
      → AgentStatus
      → (Dict Agent → Dict Agent)
      → String
      → Option String
      → Disk (System R) X
      → Owned
      → Disk (System R) X × Owned × Reply R
  unfolding load update with_agents
  transition t m actor agent_id before after change event_type mission d own =
      let (d₁, loaded) = load (with_agents rules) actor true t d in
      elim loaded.envelope [
        | none ↦ (d₁, own, not_loaded loaded.code)
        | some e ↦ reply_with event_type mission (
            update (with_agents rules) false m
              (transition_request actor agent_id before after change e.content.revision) d₁ own)
      ]

  unfoldable pub perform :
      ℕ → ℕ → Moment → Call → Disk (System R) X → Owned → Disk (System R) X × Owned × Reply R
  unfolding load checked transition with_agents
  perform t u m call d own =
      let (d₁, loaded) = load (with_agents rules) call.actor true t d in
      elim loaded.envelope [
        | none ↦ (d₁, own, not_loaded loaded.code)
        | some e ↦ elim (checked call e.content.state.agents) [
          | inl error ↦ (d₁, own, raises error)
          | inr agent ↦
              transition u m call.actor call.agent_id (some agent.status) (call.target agent.status)
                (change_agent call.agent_id call.change) call.event_type (call.event_mission agent)
                d₁ own
        ]
      ]

  unfoldable pub register_loaded :
      ℕ
      → Moment
      → String
      → String
      → String
      → Dict Agent
      → Disk (System R) X
      → Owned
      → Disk (System R) X × Owned × Reply R
  unfolding transition
  register_loaded u m agent_id acr_ref actor agents d own = elim (lookup agent_id agents) [
    | some agent ↦ (d, own, raises duplicate_agent)
    | none ↦
        transition u m actor agent_id none initializing
          (insert agent_id (new_agent agent_id acr_ref)) "AGENT_REGISTERED" none d own
  ]

  unfoldable pub register :
      ℕ
      → ℕ
      → Moment
      → String
      → String
      → String
      → Disk (System R) X
      → Owned
      → Disk (System R) X × Owned × Reply R
  unfolding load register_refused register_loaded with_agents
  register t u m agent_id acr_ref actor d own = elim (register_refused agent_id acr_ref actor) [
    | some error ↦ (d, own, raises error)
    | none ↦
        (let (d₁, loaded) = load (with_agents rules) actor true t d in
          elim loaded.envelope [
            | none ↦ (d₁, own, not_loaded loaded.code)
            | some e ↦ register_loaded u m agent_id acr_ref actor e.content.state.agents d₁ own
          ])
  ]

  -- `set_dependency` from its first check on.
  unfoldable pub set_dependency_text :
      ℕ
      → ℕ
      → Moment
      → String
      → String
      → String
      → Option String
      → Option (Dict String)
      → Option (Dict String)
      → String
      → Disk (System R) X
      → Owned
      → Disk (System R) X × Owned × Reply R
  unfolding perform set_dependency
  set_dependency_text t u m agent_id text actor verified_at tools environment now d own =
      elim (dep_status text) [
        | none ↦ (d, own, raises invalid_dep_status)
        | some status ↦
            perform t u m (set_dependency agent_id status actor verified_at tools environment now) d
              own
      ]
