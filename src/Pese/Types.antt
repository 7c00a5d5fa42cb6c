-- ===== src/Pese/Types.antt =====
-- src/asc_orchestrator/pese.py: envelopes, the lock file, findings and outcomes, and what the
-- store takes from the checks and files that are not modelled.
use asc_orchestrator_v.Base.{ℕ, String, Bool, Option, List}

-- The codes of `PESEOutcome` and `PESEError`. An exception that leaves a method is given as an
-- outcome with its code. `file_exists` is the `FileExistsError` of a write
-- that may not overwrite; `other_code` is the code that one of the checks of `Rules` raises.
pub data Code : Type 0 where
  state_loaded state_corrupt valid invalid updated conflict halted locked lock_acquired : Code
  lock_released safety_halt initialized recovered schema_invalid : Code
  state_chain_invalid malformed_json file_exists : Code
  other_code : String → Code

-- An envelope without its `file_sha256`; `format` and `kind` are constants.
pub record Content (S : Type 0) : Type 0 where
  pub revision : ℕ
  pub created_at : String
  pub writer : String
  pub previous_revision : ℕ
  pub previous_state_sha256 : String
  pub state_sha256 : String
  pub state : S

pub record Envelope (S : Type 0) : Type 0 where
  pub content : Content S
  pub file_sha256 : String

-- What a path holds: no file, a file that `_json_load` refuses, or a value.
pub data File (A : Type 0) : Type 0 where
  missing unreadable : File A
  readable : A → File A

-- A lock file. Its instants are milliseconds.
pub record LockFile : Type 0 where
  pub lock_id : String
  pub owner_agent_id : String
  pub owner_process_id : String
  pub lease_expires_at : ℕ
  pub expected_revision : ℕ

-- The findings of `validate`. `live_differs` is the one whose code is STATE_CHAIN_INVALID and
-- whose detail names live.json.
pub data Finding : Type 0 where
  no_history live_differs live_unreadable lock_invalid unverified_stale_lock : Finding
  bad_history : ℕ → Finding
  bad_envelope : ℕ → Code → Finding
  side_finding : String → Finding
  raised : Code → Finding

pub record Outcome (S : Type 0) : Type 0 where
  pub code : Code
  pub state_revision : Option ℕ
  pub state_sha256 : Option String
  pub findings : List Finding
  pub envelope : Option (Envelope S)

-- What `update` is asked to do. `from_value` is `None` for a new subject.
pub record Request (S : Type 0) : Type 0 where
  pub expected_revision : ℕ
  pub actor : String
  pub transition_type : String
  pub subject : String
  pub from_value : Option String
  pub to_value : String
  pub mutate : S → S
  pub evidence_refs : List String

-- The directory, with the files that the model does not look into as one `side`. The numbered files
-- of the history are listed in the order of their numbers, in which `validate` and `recover` put
-- them (`records.sort()`) before they walk them, and in which `write_new` keeps them.
pub record Disk (S X : Type 0) : Type 0 where
  pub history : List (ℕ × File (Envelope S))
  pub live : File (Envelope S)
  pub lock : File LockFile
  pub side : X

-- The instants and the names that one call takes from its clock and its process.
pub record Moment : Type 0 where
  pub lock_id : String
  pub process_id : String
  pub acquired : ℕ
  pub lease : ℕ
  pub validated : ℕ
  pub created_at : String

-- What the store's operations use of hashes, of other checks and of other files.
pub record Rules (S X : Type 0) : Type 0 where
  -- `canonical_json` of an envelope, and the two uses of `canonical_sha256`
  pub canonical_json : Envelope S → String
  pub state_hash : S → String
  pub file_hash : Content S → String
  -- `HASH_RE.fullmatch`
  pub is_hash : String → Bool
  -- `_validate_state_shape`, `_validate_transition` and `_validate_evidence_reference`, by the
  -- code that they raise
  pub check_shape : S → Option String
  pub check_transition : Request S → S → Option String
  pub check_evidence : X → String → Option String
  -- checkpoints, audits, recovery records and contracts, and the migrations if asked for
  pub side_findings : Bool → X → Envelope S → List String
  -- `_audit_access` of live.json, by the actor, the operation, the result and the revision
  pub note_access : String → String → String → ℕ → X → X × Option String
  -- `_audit_transition` of a request, with the new envelope, which holds the hashes of both states
  pub note_transition : Request S → Envelope S → X → X × Option String
  -- `_mission_for_subject`, and `checkpoint` by the mission, the reason and the actor
  pub mission_of : S → String → Option String
  pub checkpoint : String → String → String → Envelope S → X → X × Option String
  -- `_recover_started_migrations` and the recovery record
  pub note_recovery : Envelope S → X → X × Option String
  -- The stale lock that `recover` moves to the recovery directory
  pub keep_lock : LockFile → X → X
