-- ===== src/Agent/Succeeds.antt =====
-- When a method is done.
use asc_orchestrator_v.Base.{
  ℕ, ◌+◌, ◌≤◌, ◌≡◌, refl, sym, ◌∙◌, ap, subst, inl, inr, String, Bool, true, false, ◌&&◌, Option,
  none, some, [], ◌∷◌, ◌==◌, str_eq→eq, leb, if◌then◌else◌, Bool-cases,
}
use asc_orchestrator_v.Base.Dict.{Dict, lookup}
use asc_orchestrator_v.Pese.Types.{
  Request, Code, updated, state_loaded, state_chain_invalid, schema_invalid, missing, Envelope,
  Disk, Moment, Rules,
}
use asc_orchestrator_v.Pese.Validate.{
  zero_hash, validate_lock, validate, validate_envelope, raised_by,
}
use asc_orchestrator_v.Pese.Update.{note_load, report_state, Owned, read_live, load}
use asc_orchestrator_v.Pese.Commit.{update, refused_evidence}
use asc_orchestrator_v.Pese.Valid.{IsValid, validate_valid}
use asc_orchestrator_v.Pese.Append.{HashShape}
use asc_orchestrator_v.Pese.Recovers.{chain_top}
use asc_orchestrator_v.Pese.Settled.{valid_moves}
use asc_orchestrator_v.Pese.Succeeds.{after_load, CanWrite, IsAccepted, update_succeeds}
use asc_orchestrator_v.Agent.Types.{Agent, unauthorized, System}
use asc_orchestrator_v.Agent.Ledger.{
  actor_orchestrator, agents_shape, agent_transition, with_agents, change_agent, require_authority,
}
use asc_orchestrator_v.Agent.Calls.{Call}
use asc_orchestrator_v.Agent.Perform.{transition_request, transition, checked, perform}
use asc_orchestrator_v.Agent.Turned.{IsDone}
use asc_orchestrator_v.Agent.Performed.{IsPassed, require_authority_iff}

some_not_none : {A : Type 0} {a : String} → some a ≡ none → A
some_not_none h = cc

-- What is left of two tests and a check that raise nothing.
peel :
    (a b : Bool) (o : Option String) (x y : Code)
    → (if a then (if b then raised_by o else some x) else some y) ≡ none
    → o ≡ none
peel false b o x y h = cc
peel true false o x y h = cc
peel true true none x y h = refl
peel true true (some c) x y h = cc

-- Every agent of a shape that is accepted stands under its own name.
shape_lookup :
    (k : String) (a : Agent) (agents : Dict Agent)
    → agents_shape agents ≡ none
    → lookup k agents ≡ some a
    → a.agent_id ≡ k
unfolding agents_shape
shape_lookup k a [] s h = cc
shape_lookup k a ((j, b) ∷ agents) s h = elim (Bool-cases (b.agent_id == j)) [
  | inr e ↦ let clash : some "SCHEMA_INVALID" ≡ none = rw e at s in some_not_none clash
  | inl e ↦ elim (Bool-cases (j == k)) [
    | inr f ↦ shape_lookup k a agents (rw e at s) (rw f at h)
    | inl f ↦
        let same : some b ≡ some a = rw f at h in
        let is : b ≡ a = cc in
        ap (λ c. c.agent_id) (sym is) ∙ (str_eq→eq b.agent_id j e ∙ str_eq→eq j k f)
  ]
]

-- A change that keeps the agent's name keeps the shape.
shape_change :
    (k : String) (f : Agent → Agent) (agents : Dict Agent)
    → agents_shape agents ≡ none
    → ((a : Agent) → lookup k agents ≡ some a → (f a).agent_id ≡ a.agent_id)
    → agents_shape (change_agent k f agents) ≡ none
unfolding agents_shape change_agent
shape_change k f [] s keeps = refl
shape_change k f ((j, b) ∷ agents) s keeps = elim (Bool-cases (b.agent_id == j)) [
  | inr e ↦ let clash : some "SCHEMA_INVALID" ≡ none = rw e at s in some_not_none clash
  | inl e ↦ elim (Bool-cases (j == k)) [
    | inl g ↦
        let named : (f b).agent_id == j ≡ true = ap (λ n. n == j) (keeps b (rw g refl)) ∙ e in
        rw (g, named) (rw e at s)
    | inr g ↦ rw (g, e) (shape_change k f agents (rw e at s) (λ a h. keeps a (rw g h)))
  ]
]

-- Who may manage an agent may make its transition.
transition_allowed :
    (actor id : String) (a : Agent) (agents : Dict Agent)
    → require_authority actor id ≡ none
    → lookup id agents ≡ some a
    → a.agent_id ≡ id
    → agent_transition actor id agents ≡ none
unfolding require_authority agent_transition
transition_allowed actor id a agents r h n = elim (Bool-cases (actor == actor_orchestrator)) [
  | inl e ↦ rw e refl
  | inr e ↦ elim (Bool-cases (actor == id)) [
    | inl f ↦ rw (e, h, n, f) refl
    | inr f ↦ let clash : some unauthorized ≡ none = rw (e, f) at r in cc
  ]
]

-- Of two checks in a row that raise nothing, neither does.
both :
    (o p : Option String)
    → (elim o [ some code ↦ some code | none ↦ p ]) ≡ none
    → (o ≡ none) × (p ≡ none)
both none p h = (refl, h)
both (some c) p h = cc

module _ {R X : Type 0} (rules : Rules (System R) X) where
  accepted_shape :
      (e : Envelope (System R))
      → validate_envelope rules e ≡ none
      → rules.check_shape e.content.state ≡ none
  unfolding validate_envelope
  accepted_shape e h =
      peel
        (leb 1 e.content.revision
          && (rules.is_hash e.content.state_sha256 && rules.is_hash e.file_sha256))
        ((e.content.state_sha256 == rules.state_hash e.content.state)
          && (e.file_sha256 == rules.file_hash e.content))
        (rules.check_shape e.content.state) state_chain_invalid schema_invalid h

module _ {R X : Type 0} (rules : Rules (System R) X) where
  -- The agents of the envelope on top have the shape that is asked for.
  top_shape :
      (d : Disk (System R) X) (v : IsValid (with_agents rules) d)
      → (rules.check_shape v.top.content.state ≡ none)
        × (agents_shape v.top.content.state.agents ≡ none)
  unfolding with_agents
  top_shape d v =
      let (file, ok) = chain_top (with_agents rules) zero_hash d.history v.top v.chain v.ends in
      both (rules.check_shape v.top.content.state) (agents_shape v.top.content.state.agents)
        (accepted_shape (with_agents rules) v.top ok)

module _ {R X : Type 0} (rules : Rules (System R) X) where
  -- A load of a valid store with nothing wrong in the other files.
  load_done :
      (actor : String) (t : ℕ) (d : Disk (System R) X) (v : IsValid (with_agents rules) d)
      → d.lock ≡ missing
      → rules.side_findings true d.side v.top ≡ []
      → (note_load rules actor v.top d.side).1 ≡ none
      → load (with_agents rules) actor true t d ≡ (
        record d { side = after_load rules actor v.top d.side },
        report_state state_loaded v.top [],
      )
  unfolding load with_agents validate_lock
  load_done actor t d v l clean noted =
      let unlocked : validate_lock t d.lock ≡ [] = ap (validate_lock t) l in
      let quiet : validate (with_agents rules) true true t d ≡ [] =
        validate_valid (with_agents rules) true true t d unlocked v clean in
      let read : load (with_agents rules) actor true t d
          ≡ read_live (with_agents rules) actor d d.live =
        rw (quiet, load) refl in
      read ∙ (ap (read_live (with_agents rules) actor d) v.live_is ∙ rw (noted, read_live) refl)

  -- The request of a method for this agent.
  abbrev pub request_of : Call → Agent → Envelope (System R) → Request (System R)
  request_of call agent top =
      transition_request rules call.actor call.agent_id (some agent.status)
        (call.target agent.status) (change_agent call.agent_id call.change) top.content.revision

  -- The other files after so many loads of a method: its own and that of its transition.
  abbrev pub after_one : Call → Envelope (System R) → X → X
  after_one call top x = after_load rules call.actor top x

  abbrev pub after_two : Call → Envelope (System R) → X → X
  after_two call top x = after_one call top (after_one call top x)

  -- What one call of a method needs of the store to be done: no writer holds it, the lease is not
  -- over when the store is validated, each of the three loads finds the other files in order as
  -- they are then, the loads and the writes of its request can be audited, its checkpoint can be
  -- written if there is one, and the state with the changed agent has the shape that is asked for.
  pub record IsReady (m : Moment) (call : Call) (agent : Agent) (d : Disk (System R) X)
      (v : IsValid (with_agents rules) d) : Type 0 where
    pub unlocked : d.lock ≡ missing
    pub in_time : m.validated ≤ m.acquired + m.lease
    pub first_clean : rules.side_findings true d.side v.top ≡ []
    pub second_clean : rules.side_findings true (after_one call v.top d.side) v.top ≡ []
    pub third_clean : rules.side_findings true (after_two call v.top d.side) v.top ≡ []
    pub first_noted : (note_load rules call.actor v.top d.side).1 ≡ none
    pub second_noted : (note_load rules call.actor v.top (after_one call v.top d.side)).1 ≡ none
    pub writable :
        CanWrite
          (with_agents rules)
          m
          (request_of call agent v.top)
          v.top
          (after_two call v.top d.side)
    pub rest_shaped :
        rules.check_shape (record v.top.content.state {
          agents = change_agent call.agent_id call.change v.top.content.state.agents;
        })
        ≡ none

  -- The request of a method that has passed is accepted.
  request-IsAccepted :
      (m : Moment) (d : Disk (System R) X) (v : IsValid (with_agents rules) d) (call : Call)
      (agent : Agent) (x : X)
      → IsReady m call agent d v
      → IsPassed call v.top.content.state.agents agent
      → ((a : Agent) → (call.change a).agent_id ≡ a.agent_id)
      → IsAccepted (with_agents rules) (request_of call agent v.top) v.top x
  unfolding with_agents refused_evidence
  request-IsAccepted m d v call agent x ready p keeps =
      let agents = v.top.content.state.agents in
      let (rest, shaped) = top_shape rules d v in
      let named = shape_lookup call.agent_id agent agents shaped p.found in
      record {
        current = refl;
        allowed =
            transition_allowed call.actor call.agent_id agent agents
              ((require_authority_iff call.actor call.agent_id).1 p.authority) p.found named;
        evidence = refl;
        shaped =
            rw ready.rest_shaped
              (shape_change call.agent_id call.change agents shaped (λ a h. keeps a));
      }

  -- A method whose checks pass, on a valid store that no writer holds, is done: it is committed,
  -- where hashes have the form that is asked for, the method does not rename the agent, and this
  -- call has what it needs: its audits and its checkpoint can be written, its loads find the other
  -- files in order, the rest of the state passes its check with the changed agent, and the lease
  -- is not over when the store is validated.
  pub perform_succeeds :
      (shape : HashShape (with_agents rules)) (t u : ℕ) (m : Moment) (call : Call) (agent : Agent)
      (d : Disk (System R) X) (own : Owned) (v : IsValid (with_agents rules) d)
      → IsReady m call agent d v
      → IsPassed call v.top.content.state.agents agent
      → ((a : Agent) → (call.change a).agent_id ≡ a.agent_id)
      → IsDone (perform rules t u m call d own).2
  unfolding perform checked transition valid_moves
  perform_succeeds shape t u m call agent d own v ready p keeps =
      let d₁ : Disk (System R) X = record d { side = after_one call v.top d.side } in
      let d₂ : Disk (System R) X = record d { side = after_two call v.top d.side } in
      let v₁ = valid_moves (with_agents rules) d d₁ refl refl v in
      let v₂ = valid_moves (with_agents rules) d d₂ refl refl v in
      let first = load_done call.actor t d v ready.unlocked ready.first_clean ready.first_noted in
      let second =
        load_done call.actor u d₁ v₁ ready.unlocked ready.second_clean ready.second_noted in
      let passed : checked call v.top.content.state.agents ≡ inr agent =
        rw
          (p.found, checked, (require_authority_iff call.actor call.agent_id).1 p.authority, p.fits)
          refl in
      let done =
        update_succeeds (with_agents rules) shape m (request_of call agent v.top) d₂ own v₂
          ready.unlocked ready.in_time ready.third_clean
          (request-IsAccepted m d v call agent (after_one call v.top d₂.side) ready p keeps)
          ready.writable in
      let moved : IsDone
          (transition rules u m call.actor call.agent_id (some agent.status)
            (call.target agent.status) (change_agent call.agent_id call.change) call.event_type
            (call.event_mission agent) d₁ own).2 =
        rw (second, transition)
          (subst
            (λ r.
              (update (with_agents rules) false m (request_of call agent v.top) r.0 own).2.code
              ≡ updated)
            (sym second) done) in
      rw (first, perform, passed)
        (subst
          (λ r.
            IsDone
              (transition rules u m call.actor call.agent_id (some agent.status)
                (call.target agent.status) (change_agent call.agent_id call.change) call.event_type
                (call.event_mission agent) r.0 own).2)
          (sym first) moved)
