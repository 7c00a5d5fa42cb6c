-- ===== src/Pese/Tests.antt =====
-- The store of project state at concrete inputs: its state is a number.
use asc_orchestrator_v.Base.{
  if◌then◌else◌, ltb, ◌==◌, some, String, subst, arith, ℕ, ◌+◌, ◌≡◌, ◌≢◌, refl, ◌↔◌, true, false,
  none, [], ◌∷◌,
}
use asc_orchestrator_v.Pese.Types.{
  updated, missing, readable, Envelope, Content, Request, Disk, Moment, Rules,
}
use asc_orchestrator_v.Pese.Validate.{zero_hash, validate, validate_envelope}
use asc_orchestrator_v.Pese.Chain.{IsChain}
use asc_orchestrator_v.Pese.Valid.{IsValid, IsClean, lock_findings, validate_iff}
use asc_orchestrator_v.Pese.Append.{HashShape}
use asc_orchestrator_v.Pese.Commit.{refused_evidence, update}
use asc_orchestrator_v.Pese.Settled.{Settled, update-Settled}
use asc_orchestrator_v.Pese.Succeeds.{CanWrite, update_succeeds}
use asc_orchestrator_v.Pese.Once.{update_once}
use asc_orchestrator_v.Pese.Recover.{recover}
use asc_orchestrator_v.Pese.Recovers.{Recovered, recover-Recovered}

-- Rules that know one mission and a hundred side files, and of the rest look at nothing but the
-- chain.
abbrev plain : Rules ℕ ℕ
plain = record {
  canonical_json = λ e. e.content.writer;
  state_hash = λ s. "s";
  file_hash = λ c. "f";
  is_hash = λ s. true;
  check_shape = λ s. none;
  check_transition = λ req s. none;
  check_evidence = λ side s. none;
  side_findings = λ migrations side e. if ltb 100 side then "AUDIT_INVALID" ∷ [] else [];
  note_access = λ actor operation result revision side. (side + 1, none);
  note_transition = λ req e side. (side + 1, none);
  mission_of = λ s subject. some "MISSION:1";
  checkpoint = λ mission reason actor e side.
      if mission == "MISSION:1" then (side + 1, none) else (side, some "INVALID");
  note_recovery = λ e side. (side + 1, none);
  keep_lock = λ l side. side;
}

abbrev plain_shape : HashShape plain
plain_shape = record { of_state = λ s. refl; of_file = λ c. refl }

abbrev first_content : Content ℕ
first_content = record {
  revision = 1;
  created_at = "t";
  writer = "w";
  previous_revision = 0;
  previous_state_sha256 = zero_hash;
  state_sha256 = "s";
  state = 5;
}

abbrev first : Envelope ℕ
first = record { content = first_content; file_sha256 = "f" }

abbrev store : Disk ℕ ℕ
store = record {
  history = (1, readable first) ∷ [];
  live = readable first;
  lock = missing;
  side = 0;
}

first_accepted : validate_envelope plain first ≡ none
unfolding validate_envelope
first_accepted = refl

abbrev store_chain : IsChain plain 1 zero_hash store.history
store_chain =
    (refl, record { number = refl; parent = refl; linked = refl; accepted = first_accepted }, tt)

abbrev store_valid : IsValid plain store
store_valid = record { chain = store_chain; top = first; ends = refl; live_is = refl }

abbrev moment : Moment
moment = record {
  lock_id = "LOCK-1";
  process_id = "7";
  acquired = 10;
  lease = 120;
  validated = 11;
  created_at = "u";
}

abbrev add_one : Request ℕ
add_one = record {
  expected_revision = 1;
  actor = "AGENT:orchestrator:local";
  transition_type = "REPO_HEAD";
  subject = "R1";
  from_value = none;
  to_value = "OPEN";
  mutate = λ n. n + 1;
  evidence_refs = [];
}

abbrev interrupted : Disk ℕ ℕ
interrupted = record store { live = missing }

validate_iff_example : (validate plain true true 9 store ≡ []) ↔ (
    (lock_findings plain true 9 store.lock ≡ [])
    × ((v : IsValid plain store) × IsClean plain true store v.top))
validate_iff_example = validate_iff plain true true 9 store (λ a b l t same. cc)

update-Settled_example :
    Settled plain plain_shape moment add_one store first
      (update plain false moment add_one store none)
update-Settled_example = update-Settled plain plain_shape moment add_one store none store_valid refl

update_reported : (update plain false moment add_one store none).2.code ≡ updated
unfolding update
update_reported = refl

update_once_example :
    ((update plain false moment add_one
        (update plain false moment add_one store none).0
        none).0.history
      ≡ (update plain false moment add_one store none).0.history)
    × ((update plain false moment add_one
          (update plain false moment add_one store none).0
          none).0.live
        ≡ (update plain false moment add_one store none).0.live)
    × ((update plain false moment add_one
          (update plain false moment add_one store none).0
          none).2.code
        ≢ updated)
update_once_example =
    update_once plain plain_shape moment moment add_one add_one store none none store_valid refl
      refl update_reported

recover-Recovered_example :
    Recovered plain interrupted first (recover plain moment "AGENT:a" false none interrupted none)
recover-Recovered_example =
    recover-Recovered plain moment "AGENT:a" false none interrupted none first
      (record { chain = store_chain; ends = refl; live_ok = λ h. cc; clean = refl }) refl

no_evidence : refused_evidence plain 1 add_one.evidence_refs ≡ none
unfolding refused_evidence
no_evidence = refl

known : (mission : String) → some "MISSION:1" ≡ some mission → mission == "MISSION:1" ≡ true
known mission f =
    let is : "MISSION:1" ≡ mission = cc in subst (λ n. n == "MISSION:1" ≡ true) is refl

can_write : CanWrite plain moment add_one first 0
can_write = record {
  loaded = refl;
  concluded = record {
    transitioned = refl;
    saved = refl;
    checkpointed = λ mission reason e f g. rw (known mission f) refl;
  };
}

update_succeeds_example : (update plain false moment add_one store none).2.code ≡ updated
update_succeeds_example =
    update_succeeds plain plain_shape moment add_one store none store_valid refl (omega arith) refl
      (record { current = refl; allowed = refl; evidence = no_evidence; shaped = refl }) can_write
