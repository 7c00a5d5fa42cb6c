-- ===== src/Agent/Ledger.antt =====
-- src/asc_orchestrator/pese.py: the clauses on agents of the state's shape and of a transition;
-- src/asc_orchestrator/agent.py: finding and changing an agent.
use asc_orchestrator_v.Base.{
  ◌≡◌, String, Bool, false, not, ◌&&◌, Option, none, some, [], ◌∷◌, arith, ◌==◌, eq_iff,
  if◌then◌else◌,
}
use asc_orchestrator_v.Base.Dict.{Dict, lookup}
use asc_orchestrator_v.Pese.Types.{Rules}
use asc_orchestrator_v.Agent.Types.{Agent, System, AgcError, unauthorized}

abbrev pub actor_orchestrator : String
actor_orchestrator = "AGENT:orchestrator:local"

-- The loop over the agents in `_validate_state_shape`.
unfoldable pub agents_shape : Dict Agent → Option String
agents_shape [] = none
agents_shape ((agent_id, agent) ∷ agents) =
    let rest = agents_shape agents in
    if agent.agent_id == agent_id then rest else some "SCHEMA_INVALID"

-- `agent.get("agent_id")`, for an agent or the empty object.
abbrev pub known_id : Option Agent → Option String
known_id none = none
known_id (some agent) = some agent.agent_id

abbrev is_id : String → Option String → Bool
is_id actor none = false
is_id actor (some id) = actor == id

-- The clause of AGENT_STATUS in `_validate_transition`.
unfoldable pub agent_transition : String → String → Dict Agent → Option String
agent_transition actor subject agents =
    if not (actor == actor_orchestrator) && not (is_id actor (known_id (lookup subject agents)))
    then some "UNAUTHORIZED"
    else none

-- The rules of the store with the clauses on agents written out. The shape's other clauses are
-- looked at first: the order decides no more than which code is raised.
unfoldable pub with_agents : {R X : Type 0} → Rules (System R) X → Rules (System R) X
unfolding agents_shape agent_transition
with_agents base = record base {
  check_shape =
      λ s. elim (base.check_shape s) [ some code ↦ some code | none ↦ agents_shape s.agents ];
  check_transition = λ req before.
      if req.transition_type == "AGENT_STATUS"
      then agent_transition req.actor req.subject before.agents
      else base.check_transition req before;
}

-- `a = ….get(agent_id)`, `if a is not None: …`
unfoldable pub change_agent : String → (Agent → Agent) → Dict Agent → Dict Agent
change_agent agent_id f [] = []
change_agent agent_id f ((k, a) ∷ agents) =
    let rest = change_agent agent_id f agents in
    if k == agent_id then (k, f a) ∷ agents else (k, a) ∷ rest

-- `_require_authority`
unfoldable pub require_authority : String → String → Option AgcError
require_authority actor agent_id =
    if not (actor == actor_orchestrator) && not (actor == agent_id) then some unauthorized else none

abbrev pub map_agent : (Agent → Agent) → Option Agent → Option Agent
map_agent f none = none
map_agent f (some a) = some (f a)

-- A changed agent is found changed, and the others are as they were.
pub lookup-change_agent :
    (agent_id k : String) (f : Agent → Agent) (agents : Dict Agent)
    → lookup k (change_agent agent_id f agents)
      ≡ (if agent_id == k then map_agent f (lookup k agents) else lookup k agents)
unfolding change_agent
lookup-change_agent agent_id k f [] = ground (arith, eq_iff agent_id k)
lookup-change_agent agent_id k f ((j, a) ∷ agents) = ground (
  arith,
  eq_iff agent_id k,
  eq_iff j k,
  eq_iff j agent_id,
  lookup-change_agent agent_id k f agents,
)
