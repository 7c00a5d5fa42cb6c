-- ===== src/Pese/Commit.antt =====
-- src/asc_orchestrator/pese.py: `update`, `initialize` and `recover`.
use asc_orchestrator_v.Base.{
  ◌+◌, String, Bool, true, false, not, Option, none, some, List, [], ◌∷◌, nat_eq, if◌then◌else◌,
}
use asc_orchestrator_v.Base.Truthy.{truthy}
use asc_orchestrator_v.Pese.Types.{
  Code, state_corrupt, updated, conflict, halted, lock_acquired, safety_halt, file_exists,
  other_code, Envelope, readable, Finding, no_history, live_differs, live_unreadable, lock_invalid,
  unverified_stale_lock, bad_history, bad_envelope, side_finding, raised, Outcome, Request, Disk,
  Moment, Rules,
}
use asc_orchestrator_v.Pese.Update.{
  report, report_state, Owned, owns, mandatory_reason, write_new, load, acquire_lock, release_lock,
  seal,
}

-- `finding["code"] == "STATE_CHAIN_INVALID" and "live.json" in finding["detail"]`, negated.
abbrev pub is_non_live : Finding → Bool
is_non_live live_differs = false
is_non_live no_history = true
is_non_live live_unreadable = true
is_non_live lock_invalid = true
is_non_live unverified_stale_lock = true
is_non_live (bad_history n) = true
is_non_live (bad_envelope n code) = true
is_non_live (side_finding detail) = true
is_non_live (raised code) = true

-- The code of an update that could not load: `HALTED` for `STATE_CORRUPT`, and what was raised.
abbrev pub unloaded : Code → Code
unloaded state_corrupt = halted
unloaded other = other

module _ {S X : Type 0} (rules : Rules S X) where
  -- The first evidence reference that is refused.
  unfoldable pub refused_evidence : X → List String → Option String
  refused_evidence side [] = none
  refused_evidence side (r ∷ refs) =
      let rest = refused_evidence side refs in
      elim (rules.check_evidence side r) [ none ↦ rest | some code ↦ some code ]

  -- What the three validations before the writes raise.
  unfoldable pub refusal : Request S → S → S → X → Option String
  unfolding refused_evidence
  refusal req before after side = elim (rules.check_transition req before) [
    | some code ↦ some code
    | none ↦ elim (refused_evidence side req.evidence_refs) [
      | some code ↦ some code
      | none ↦ rules.check_shape after
    ]
  ]

  -- The mandatory checkpoint, where there is one, and the outcome.
  abbrev pub conclude_checkpoint : Request S → Envelope S → Disk S X → Disk S X × Outcome S
  conclude_checkpoint req new d = elim (mandatory_reason req.transition_type req.to_value) [
    | none ↦ (d, report_state updated new [])
    | some reason ↦ elim (rules.mission_of new.content.state req.subject) [
      | none ↦ (d, report_state updated new [])
      | some mission ↦
          if not (truthy (some mission))
          then (d, report_state updated new [])
          else (let (side, failed) = rules.checkpoint mission reason req.actor new d.side in
              elim failed [
                | some code ↦ (
                  record d { side = side },
                  report_state halted new (raised (other_code code) ∷ []),
                )
                | none ↦ (record d { side = side }, report_state updated new [])
              ])
    ]
  ]

  -- The audit of the writes.
  abbrev pub note_save : Request S → Envelope S → X → X × Option String
  note_save req new side = rules.note_access req.actor "SAVE" "SUCCEEDED" new.content.revision side

  -- What follows the two writes: two audit records and the checkpoint.
  unfoldable pub conclude : Request S → Envelope S → Disk S X → Disk S X × Outcome S
  unfolding mandatory_reason
  conclude req new d =
      let (side₁, failed₁) = rules.note_transition req new d.side in
      elim failed₁ [
        | some code ↦
            (record d { side = side₁ }, report (other_code code) (raised (other_code code) ∷ []))
        | none ↦
            (let (side₂, failed₂) = note_save req new side₁ in
              elim failed₂ [
                | some code ↦ (
                  record d { side = side₂ },
                  report (other_code code) (raised (other_code code) ∷ []),
                )
                | none ↦ conclude_checkpoint req new (record d { side = side₂ })
              ])
      ]

  abbrev pub next_envelope : Moment → Request S → Envelope S → Envelope S
  next_envelope m req old =
      seal rules (req.mutate old.content.state) (req.expected_revision + 1) m.created_at req.actor
        req.expected_revision old.content.state_sha256

  -- The two writes: the numbered file of the history, then live.json.
  unfoldable pub publish : Moment → Request S → Envelope S → Disk S X → Disk S X × Outcome S
  unfolding conclude write_new seal
  publish m req old d =
      let new = next_envelope m req old in
      elim (write_new new.content.revision new d.history) [
        | none ↦ (d, report file_exists (raised file_exists ∷ []))
        | some history ↦ conclude req new (record d { history = history; live = readable new })
      ]

  -- The body of `update`, with the loaded envelope.
  unfoldable pub commit : Moment → Request S → Envelope S → Disk S X → Disk S X × Outcome S
  unfolding refusal publish
  commit m req old d =
      if not (nat_eq old.content.revision req.expected_revision)
      then (d, report_state conflict old (raised conflict ∷ []))
      else elim (refusal req old.content.state (req.mutate old.content.state) d.side) [
        | some code ↦ (d, report (other_code code) (raised (other_code code) ∷ []))
        | none ↦ publish m req old d
      ]

  -- What `load` answers, as `update` reads it: only `STATE_LOADED` carries an envelope.
  abbrev pub commit_loaded : Moment → Request S → Disk S X × Outcome S → Disk S X × Outcome S
  commit_loaded m req (d, loaded) = elim loaded.envelope [
    | some old ↦ commit m req old d
    | none ↦ (d, report (unloaded loaded.code) loaded.findings)
  ]

  -- `finally: if acquired_here: self.release_lock(actor)`
  abbrev pub release_after : String → Owned → Disk S X × Outcome S → Disk S X × Owned × Outcome S
  release_after actor own (d, outcome) =
      let (d₁, own₁, released) = release_lock {S = S} {X = X} rules actor d own in
      (d₁, own₁, outcome)

  -- What `acquire_lock` answers, as `update` reads it.
  abbrev pub after_acquire :
      Moment → Request S → Disk S X × Owned × Outcome S → Disk S X × Owned × Outcome S
  after_acquire m req (d, own, got) = elim got.code [
    | lock_acquired ↦
        release_after req.actor own (commit_loaded m req (load rules req.actor true m.validated d))
    | other ↦ (d, own, got)
  ]

  unfoldable pub update :
      Bool → Moment → Request S → Disk S X → Owned → Disk S X × Owned × Outcome S
  unfolding load acquire_lock release_lock commit owns
  update true m req d own =
      if owns d.lock own req.actor
      then (let (d₁, outcome) = commit_loaded m req (load rules req.actor false m.validated d) in
          (d₁, own, outcome))
      else (d, own, report safety_halt (raised (other_code "LOCK_OWNERSHIP") ∷ []))
  update false m req d own =
      after_acquire m req (acquire_lock rules m req.actor req.expected_revision d own)
