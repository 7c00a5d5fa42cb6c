-- ===== src/Agent/Tests.antt =====
-- The life of an agent at concrete inputs.
use asc_orchestrator_v.Base.{
  if◌then◌else◌, ltb, ◌==◌, some, String, subst, ◌↔◌, arith, ℕ, ◌+◌, ◌≡◌, refl, Bool-cases, inl,
  inr, true, Option, none, [], ◌∷◌,
}
use asc_orchestrator_v.Base.Dict.{lookup}
use asc_orchestrator_v.Pese.Types.{
  missing, unreadable, readable, Envelope, Content, Disk, Moment, Rules,
}
use asc_orchestrator_v.Pese.Validate.{zero_hash, validate_envelope}
use asc_orchestrator_v.Pese.Valid.{IsValid}
use asc_orchestrator_v.Pese.Append.{HashShape}
use asc_orchestrator_v.Agent.Types.{AgentStatus, ready, busy, released, Agent, System}
use asc_orchestrator_v.Agent.Ledger.{actor_orchestrator, with_agents, change_agent}
use asc_orchestrator_v.Agent.Calls.{claim}
use asc_orchestrator_v.Agent.Perform.{new_agent, perform, register, transition}
use asc_orchestrator_v.Agent.Methods.{Method, call_of, claiming, IsMove, IsConsistent}
use asc_orchestrator_v.Agent.Table.{Follows, MayStart, check_iff, method-Follows}
use asc_orchestrator_v.Agent.Performed.{IsPassed, Performed, perform-Performed}
use asc_orchestrator_v.Agent.Registered.{Registered, register-Registered}
use asc_orchestrator_v.Pese.Succeeds.{CanWrite}
use asc_orchestrator_v.Agent.Turned.{IsDone}
use asc_orchestrator_v.Agent.Succeeds.{request_of, perform_succeeds}
use asc_orchestrator_v.Agent.Life.{
  EachAgent, IsReleased, here, after, managing, IsGood, Reached-IsConsistent, Reached-IsReleased,
}

-- Rules that know one mission and a hundred side files, and of the rest look at nothing but the
-- chain and the agents.
abbrev plain : Rules (System Unit) ℕ
plain = record {
  canonical_json = λ e. e.content.writer;
  state_hash = λ s. "s";
  file_hash = λ c. "f";
  is_hash = λ s. true;
  check_shape = λ s. none;
  check_transition = λ req s. none;
  check_evidence = λ side s. none;
  side_findings = λ migrations side e. if ltb 100 side then "AUDIT_INVALID" ∷ [] else [];
  note_access = λ actor operation result revision side. (side + 1, none);
  note_transition = λ req e side. (side + 1, none);
  mission_of = λ s subject. some "MISSION:1";
  checkpoint = λ mission reason actor e side.
      if mission == "MISSION:1" then (side + 1, none) else (side, some "INVALID");
  note_recovery = λ e side. (side + 1, none);
  keep_lock = λ l side. side;
}

plain_shape : HashShape (with_agents plain)
unfolding with_agents
plain_shape = record { of_state = λ s. refl; of_file = λ c. refl }

abbrev worker : AgentStatus → Agent
worker status = record (new_agent "AGENT:a" "acr") { status = status }

abbrev content_with : AgentStatus → Content (System Unit)
content_with status = record {
  revision = 1;
  created_at = "t";
  writer = "w";
  previous_revision = 0;
  previous_state_sha256 = zero_hash;
  state_sha256 = "s";
  state = record { agents = ("AGENT:a", worker status) ∷ []; rest = tt };
}

abbrev first : AgentStatus → Envelope (System Unit)
first status = record { content = content_with status; file_sha256 = "f" }

abbrev store : AgentStatus → Disk (System Unit) ℕ
store status = record {
  history = (1, readable (first status)) ∷ [];
  live = readable (first status);
  lock = missing;
  side = 0;
}

first_accepted :
    (status : AgentStatus) → validate_envelope (with_agents plain) (first status) ≡ none
unfolding validate_envelope with_agents
first_accepted status = refl

abbrev store_valid : (status : AgentStatus) → IsValid (with_agents plain) (store status)
store_valid status = record {
  chain = (
    refl,
    record { number = refl; parent = refl; linked = refl; accepted = first_accepted status },
    tt,
  );
  top = first status;
  ends = refl;
  live_is = refl;
}

abbrev moment : Moment
moment = record {
  lock_id = "LOCK-1";
  process_id = "7";
  acquired = 10;
  lease = 120;
  validated = 11;
  created_at = "u";
}

abbrev claim_a : Method
claim_a = claiming "AGENT:a" "MISSION:1" "ASSIGNMENT:1" actor_orchestrator

abbrev mission_of_a : Disk (System Unit) ℕ → Option (Option String)
mission_of_a d = elim d.live [
  | missing ↦ none
  | unreadable ↦ none
  | readable e ↦ elim (lookup "AGENT:a" e.content.state.agents) [
    | none ↦ none
    | some a ↦ some a.mission_id
  ]
]

-- A claim of a ready agent is committed.
claimed :
    mission_of_a (perform plain 9 9 moment (call_of claim_a) (store ready) none).0
    ≡ some (some "MISSION:1")
unfolding perform claim change_agent
claimed = refl

-- Two processes see the agent ready; the second transition comes after the first and is committed
-- too, though the agent is busy then: the first mission's claim is lost.
claimed_twice :
    mission_of_a
      (transition plain 9 moment actor_orchestrator "AGENT:a"
        (some ready)
        busy
        (change_agent "AGENT:a"
          (claim "AGENT:a" "MISSION:2" "ASSIGNMENT:2" actor_orchestrator).change)
        "AGENT_BUSY"
        (some "MISSION:2")
        (perform plain 9 9 moment (call_of claim_a) (store ready) none).0
        none).0
    ≡ some (some "MISSION:2")
unfolding perform transition claim change_agent
claimed_twice = refl

method-Follows_example :
    Follows claim_a (worker ready) ((call_of claim_a).change (worker ready))
    × IsMove (worker ready) ((call_of claim_a).change (worker ready))
unfolding claim
method-Follows_example = method-Follows claim_a (worker ready) refl

check_iff_example : ((call_of claim_a).check (worker busy) ≡ none) ↔ MayStart claim_a (worker busy)
check_iff_example = check_iff claim_a (worker busy)

perform-Performed_example :
    Performed plain
      (call_of claim_a)
      (store ready)
      (first ready)
      (perform plain 9 9 moment (call_of claim_a) (store ready) none)
perform-Performed_example =
    perform-Performed plain plain_shape 9 9 moment (call_of claim_a) (store ready) none
      (store_valid ready) refl

register-Registered_example :
    Registered plain "AGENT:b" "acr" actor_orchestrator
      (store ready)
      (first ready)
      (register plain 9 9 moment "AGENT:b" "acr" actor_orchestrator (store ready) none)
register-Registered_example =
    register-Registered plain plain_shape 9 9 moment "AGENT:b" "acr" actor_orchestrator
      (store ready) none (store_valid ready) refl

abbrev claimed_store : Disk (System Unit) ℕ
claimed_store = (perform plain 9 9 moment (call_of claim_a) (store ready) none).0

abbrev retried_store : Disk (System Unit) ℕ
retried_store = (perform plain 9 9 moment (call_of claim_a) (store released) none).0

ready-IsConsistent : EachAgent IsConsistent (content_with ready).state.agents
ready-IsConsistent k a h = elim (Bool-cases ("AGENT:a" == k)) [
  | inl e ↦
      let same : some (worker ready) ≡ some a = rw e at h in
      let is : worker ready ≡ a = cc in subst IsConsistent is (refl, refl)
  | inr e ↦ let clash : none ≡ some a = rw e at h in cc
]

Reached-IsConsistent_example : IsGood plain (EachAgent IsConsistent) claimed_store
Reached-IsConsistent_example =
    Reached-IsConsistent plain plain_shape (store ready) claimed_store
      (record { valid_is = store_valid ready; unlocked = refl; agents_are = ready-IsConsistent })
      (after here (managing 9 9 moment claim_a none refl))

Reached-IsReleased_example : IsGood plain (IsReleased "AGENT:a") retried_store
Reached-IsReleased_example =
    Reached-IsReleased plain plain_shape "AGENT:a" (store released) retried_store
      (record {
        valid_is = store_valid released;
        unlocked = refl;
        agents_are = (worker released, refl, refl);
      })
      (after here (managing 9 9 moment claim_a none refl))

known : (mission : String) → some "MISSION:1" ≡ some mission → mission == "MISSION:1" ≡ true
known mission f =
    let is : "MISSION:1" ≡ mission = cc in subst (λ n. n == "MISSION:1" ≡ true) is refl

can_write :
    CanWrite
      (with_agents plain)
      moment
      (request_of plain (call_of claim_a) (worker ready) (first ready))
      (first ready)
      2
unfolding with_agents
can_write = record {
  loaded = refl;
  concluded = record {
    transitioned = refl;
    saved = refl;
    checkpointed = λ mission reason e f g. rw (known mission f) refl;
  };
}

claim_passes : IsPassed (call_of claim_a) (content_with ready).state.agents (worker ready)
unfolding claim
claim_passes = record { found = refl; authority = inl refl; fits = refl }

claim_keeps_name : (a : Agent) → ((call_of claim_a).change a).agent_id ≡ a.agent_id
unfolding claim
claim_keeps_name a = refl

perform_succeeds_example : IsDone (perform plain 9 9 moment (call_of claim_a) (store ready) none).2
perform_succeeds_example =
    perform_succeeds plain plain_shape 9 9 moment (call_of claim_a) (worker ready) (store ready)
      none (store_valid ready)
      (record {
        unlocked = refl;
        in_time = omega arith;
        first_clean = refl;
        second_clean = refl;
        third_clean = refl;
        first_noted = refl;
        second_noted = refl;
        writable = can_write;
        rest_shaped = refl;
      })
      claim_passes claim_keeps_name
