-- ===== src/Pese/Recover.antt =====
-- src/asc_orchestrator/pese.py: `initialize` and `recover`.
use asc_orchestrator_v.Base.{
  ℕ, String, Bool, true, false, not, ◌||◌, Option, none, some, List, [], ◌∷◌, nonempty, select, leb,
  if◌then◌else◌,
}
use asc_orchestrator_v.Pese.Types.{
  lock_acquired, safety_halt, initialized, recovered, malformed_json, other_code, Envelope, File,
  missing, unreadable, readable, LockFile, raised, Outcome, Disk, Moment, Rules,
}
use asc_orchestrator_v.Pese.Validate.{zero_hash, validate, validate_envelope}
use asc_orchestrator_v.Pese.Update.{report, report_state, Owned, load, acquire_lock, seal}
use asc_orchestrator_v.Pese.Commit.{is_non_live, release_after}

-- `history[-1]`
abbrev pub last_file : {S : Type 0} → List (ℕ × File (Envelope S)) → File (Envelope S)
last_file [] = missing
last_file ((n, f) ∷ []) = f
last_file ((n, f) ∷ (g ∷ files)) = last_file (g ∷ files)

-- `live is not False`, for what the liveness check answers, if there is one.
abbrev pub maybe_alive : Option Bool → Bool
maybe_alive none = true
maybe_alive (some alive) = alive

module _ {S X : Type 0} (rules : Rules S X) where
  -- The first envelope, in an empty directory.
  abbrev pub first_write : Moment → String → S → Disk S X → Disk S X × Outcome S
  first_write m writer payload d = elim (rules.check_shape payload) [
    | some code ↦ (d, report (other_code code) (raised (other_code code) ∷ []))
    | none ↦
        let e = seal rules payload 1 m.created_at writer 0 zero_hash in
        let (side, failed) = rules.note_access writer "SAVE" "SUCCEEDED" 1 d.side in
        let d₁ : Disk S X = record {
          history = (1, readable e) ∷ [];
          live = readable e;
          lock = d.lock;
          side = side;
        } in
        elim failed [
          | some code ↦ (d₁, report (other_code code) (raised (other_code code) ∷ []))
          | none ↦ (d₁, report_state initialized e [])
        ]
  ]

  -- `self.live_path.exists() or any(… .glob("*.json"))`
  abbrev pub has_files : File (Envelope S) → List (ℕ × File (Envelope S)) → Bool
  has_files missing [] = false
  has_files missing (f ∷ files) = true
  has_files unreadable files = true
  has_files (readable e) files = true

  abbrev pub initialize_held : Moment → String → S → Disk S X → Disk S X × Outcome S
  initialize_held m writer payload d =
      if has_files d.live d.history
      then load rules "AGENT:system:reader" true m.validated d
      else first_write m writer payload d

  abbrev pub after_initialize_lock :
      Moment → String → S → Disk S X × Owned × Outcome S → Disk S X × Owned × Outcome S
  after_initialize_lock m writer payload (d, own, got) = elim got.code [
    | lock_acquired ↦ release_after rules writer own (initialize_held m writer payload d)
    | other ↦ (d, own, got)
  ]

  unfoldable pub initialize : Moment → String → S → Disk S X → Owned → Disk S X × Owned × Outcome S
  unfolding load acquire_lock seal
  initialize m writer payload d own =
      after_initialize_lock m writer payload (acquire_lock rules m writer 0 d own)

  -- live.json is written again from the last file of the history.
  abbrev pub promote : File (Envelope S) → Disk S X → Disk S X × Outcome S
  promote missing d = (d, report safety_halt (raised (other_code "STATE_MISSING") ∷ []))
  promote unreadable d = (d, report malformed_json (raised malformed_json ∷ []))
  promote (readable highest) d = elim (validate_envelope rules highest) [
    | some code ↦ (d, report code (raised code ∷ []))
    | none ↦
        let (side, failed) = rules.note_recovery highest d.side in
        elim failed [
          | some code ↦ (
            record d { live = readable highest; side = side },
            report (other_code code) (raised (other_code code) ∷ []),
          )
          | none ↦
              (record d { live = readable highest; side = side }, report_state recovered highest [])
        ]
  ]

  abbrev pub after_recovery_lock :
      String → Disk S X × Owned × Outcome S → Disk S X × Owned × Outcome S
  after_recovery_lock actor (d, own, got) = elim got.code [
    | lock_acquired ↦ release_after rules actor own (promote (last_file d.history) d)
    | other ↦ (d, own, got)
  ]

  abbrev pub take_over : Moment → String → Disk S X → Owned → Disk S X × Owned × Outcome S
  take_over m actor d own = after_recovery_lock actor (acquire_lock rules m actor 0 d own)

  -- The lock that is found: none, one that may be alive, or one that is stale.
  abbrev pub past_lock :
      Moment
      → String
      → Bool
      → Option Bool
      → Disk S X
      → Owned
      → File LockFile
      → Disk S X × Owned × Outcome S
  past_lock m actor stale alive d own missing = take_over m actor d own
  past_lock m actor stale alive d own unreadable =
      (d, own, report malformed_json (raised malformed_json ∷ []))
  past_lock m actor stale alive d own (readable l) =
      if not stale || (leb m.validated l.lease_expires_at || maybe_alive alive)
      then (d, own, report safety_halt (raised safety_halt ∷ []))
      else take_over m actor (record d { lock = missing; side = rules.keep_lock l d.side }) own

  unfoldable pub recover :
      Moment → String → Bool → Option Bool → Disk S X → Owned → Disk S X × Owned × Outcome S
  unfolding validate validate_envelope acquire_lock
  recover m actor stale alive d own =
      let non_live = select is_non_live (validate rules false false m.validated d) in
      if nonempty non_live
      then (d, own, report safety_halt non_live)
      else past_lock m actor stale alive d own d.lock
