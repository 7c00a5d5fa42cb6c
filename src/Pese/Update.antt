-- ===== src/Pese/Update.antt =====
-- src/asc_orchestrator/pese.py: loading, the writer lock, and the commit of one update.
use asc_orchestrator_v.Base.{
  ℕ, ◌+◌, String, Bool, true, false, ◌&&◌, Option, none, some, List, [], ◌∷◌, nat_eq, ltb, ◌==◌,
  if◌then◌else◌,
}
use asc_orchestrator_v.Pese.Types.{
  Code, state_loaded, state_corrupt, locked, lock_acquired, lock_released, safety_halt,
  malformed_json, other_code, Content, Envelope, File, missing, unreadable, readable, LockFile,
  Finding, raised, Outcome, Disk, Moment, Rules,
}
use asc_orchestrator_v.Pese.Validate.{validate}

-- `_outcome(code, state=…, findings=…)`
abbrev pub report : {S : Type 0} → Code → List Finding → Outcome S
report code findings = record {
  code = code;
  state_revision = none;
  state_sha256 = none;
  findings = findings;
  envelope = none;
}

abbrev pub report_state : {S : Type 0} → Code → Envelope S → List Finding → Outcome S
report_state code e findings = record {
  code = code;
  state_revision = some e.content.revision;
  state_sha256 = some e.content.state_sha256;
  findings = findings;
  envelope = some e;
}

-- `_lock_id`, the lock that this store object has taken.
abbrev pub Owned : Type 0
Owned = Option String

-- `self._owns_lock(actor)`
unfoldable pub owns : File LockFile → Owned → String → Bool
owns missing own actor = false
owns unreadable own actor = false
owns (readable l) none actor = false
owns (readable l) (some id) actor = (l.lock_id == id) && (l.owner_agent_id == actor)

-- `MANDATORY_CHECKPOINTS`
unfoldable pub mandatory_reason : String → String → Option String
mandatory_reason kind to =
    if kind == "MISSION_STATUS"
    then (if to == "ACTIVE"
        then some "MISSION_START"
        else if to == "COMPLETED"
        then some "MISSION_FINISH"
        else if to == "CANCELLED"
        then some "MISSION_FINISH"
        else if to == "FAILED"
        then some "MISSION_FINISH"
        else none)
    else if kind == "VALIDATION_GATE"
    then (if to == "GREEN"
        then some "VALIDATION"
        else if to == "RED"
        then some "VALIDATION"
        else if to == "BLOCKED"
        then some "VALIDATION"
        else if to == "PENDING"
        then some "VALIDATION"
        else none)
    else if kind == "REPO_HEAD"
    then some "COMMIT"
    else if kind == "AGENT_STATUS"
    then (if to == "FAILED"
        then some "FAILURE"
        else if to == "QUARANTINED"
        then some "FAILURE"
        else none)
    else if kind == "RECOVERY_STATUS"
    then (if to == "FAILED" then some "FAILURE" else none)
    else if kind == "REPOSITORY_RECONCILIATION"
    then some "COMMIT"
    else none

-- `_atomic_write(…, overwrite=False)` of a numbered file: none where the file is there.
unfoldable pub write_new :
    {S : Type 0}
    → ℕ
    → Envelope S
    → List (ℕ × File (Envelope S))
    → Option (List (ℕ × File (Envelope S)))
write_new n e [] = some ((n, readable e) ∷ [])
write_new n e ((m, f) ∷ files) =
    let rest = write_new n e files in
    if ltb n m
    then some ((n, readable e) ∷ ((m, f) ∷ files))
    else if nat_eq n m
    then none
    else elim rest [ none ↦ none | some more ↦ some ((m, f) ∷ more) ]

module _ {S X : Type 0} (rules : Rules S X) where
  -- The audit of a load.
  abbrev pub note_load : String → Envelope S → X → X × Option String
  note_load actor e side = rules.note_access actor "LOAD" "ALLOWED" e.content.revision side

  -- `load`, with `STATE_LOADED` last. A file that disappears is not modelled.
  abbrev pub read_live : String → Disk S X → File (Envelope S) → Disk S X × Outcome S
  read_live actor d missing = (d, report (other_code "FileNotFoundError") [])
  read_live actor d unreadable = (d, report malformed_json (raised malformed_json ∷ []))
  read_live actor d (readable e) =
      let (side, failed) = note_load actor e d.side in
      elim failed [
        | some code ↦
            (record d { side = side }, report (other_code code) (raised (other_code code) ∷ []))
        | none ↦ (record d { side = side }, report_state state_loaded e [])
      ]

  unfoldable pub load : String → Bool → ℕ → Disk S X → Disk S X × Outcome S
  unfolding validate
  load actor check_migrations now d = elim (validate rules true check_migrations now d) [
    | [] ↦ read_live actor d d.live
    | f ∷ fs ↦ (d, report state_corrupt (f ∷ fs))
  ]

  abbrev pub lock_file : Moment → String → ℕ → LockFile
  lock_file m actor expected = record {
    lock_id = m.lock_id;
    owner_agent_id = actor;
    owner_process_id = m.process_id;
    lease_expires_at = m.acquired + m.lease;
    expected_revision = expected;
  }

  unfoldable pub acquire_lock :
      Moment → String → ℕ → Disk S X → Owned → Disk S X × Owned × Outcome S
  acquire_lock m actor expected d own = elim d.lock [
    | missing ↦ (
      record d { lock = readable (lock_file m actor expected) },
      some m.lock_id,
      report lock_acquired [],
    )
    | unreadable ↦ (d, own, report locked (raised locked ∷ []))
    | readable other ↦ (d, own, report locked (raised locked ∷ []))
  ]

  unfoldable pub release_lock : String → Disk S X → Owned → Disk S X × Owned × Outcome S
  unfolding owns
  release_lock actor d own = elim d.lock [
    | missing ↦ (d, own, report lock_released [])
    | unreadable ↦ (d, own, report malformed_json (raised malformed_json ∷ []))
    | readable l ↦
        if owns (readable l) own actor
        then (record d { lock = missing }, none, report lock_released [])
        else (d, own, report safety_halt (raised (other_code "LOCK_OWNERSHIP") ∷ []))
  ]

  -- `_envelope`
  unfoldable pub seal : S → ℕ → String → String → ℕ → String → Envelope S
  seal state revision created_at writer previous_revision previous_hash =
      let content : Content S = record {
        revision = revision;
        created_at = created_at;
        writer = writer;
        previous_revision = previous_revision;
        previous_state_sha256 = previous_hash;
        state_sha256 = rules.state_hash state;
        state = state;
      } in
      record { content = content; file_sha256 = rules.file_hash content }
