-- ===== src/Pese/Succeeds.antt =====
-- When an update is committed.
use asc_orchestrator_v.Base.{
  ◌+◌, ◌≤◌, ◌≡◌, refl, ◌∙◌, ap, subst, inl, inr, String, true, false, none, some, [], ◌∷◌, ◌++◌,
  arith, nat_eq, ltb, Bool-cases, Option-cases,
}
use asc_orchestrator_v.Base.Truthy.{truthy}
use asc_orchestrator_v.Pese.Types.{
  state_loaded, updated, Envelope, missing, readable, Request, Disk, Moment, Rules,
}
use asc_orchestrator_v.Pese.Validate.{zero_hash, validate_lock, validate}
use asc_orchestrator_v.Pese.Update.{
  report_state, Owned, mandatory_reason, write_new, note_load, read_live, load, lock_file, seal,
}
use asc_orchestrator_v.Pese.Valid.{IsValid, validate_valid}
use asc_orchestrator_v.Pese.Append.{HashShape, append_chain}
use asc_orchestrator_v.Pese.Commit.{
  note_save, refused_evidence, refusal, conclude_checkpoint, conclude, next_envelope, publish,
  commit, commit_loaded, release_after, update,
}
use asc_orchestrator_v.Pese.Commits.{next-IsLink}
use asc_orchestrator_v.Pese.Settled.{valid_moves, update_free}

module _ {S X : Type 0} (rules : Rules S X) where
  -- The other files after the audit of the load, of the transition and of the writes.
  abbrev pub after_load : String → Envelope S → X → X
  after_load actor top x = (note_load rules actor top x).0

  abbrev pub after_transition : Request S → Envelope S → X → X
  after_transition req new x = (rules.note_transition req new x).0

  abbrev pub after_save : Request S → Envelope S → X → X
  after_save req new x = (note_save rules req new x).0

  -- The audits that follow the writes of this request can be written on what the other files then
  -- are, and so can the checkpoint, if the request needs one for a mission.
  pub record CanConclude (req : Request S) (new : Envelope S) (x : X) : Type 0 where
    pub transitioned : (rules.note_transition req new x).1 ≡ none
    pub saved : (note_save rules req new (after_transition req new x)).1 ≡ none
    pub checkpointed :
        (mission reason : String)
        → mandatory_reason req.transition_type req.to_value ≡ some reason
        → rules.mission_of new.content.state req.subject ≡ some mission
        → truthy (some mission) ≡ true
        → (rules.checkpoint mission reason req.actor new
            (after_save req new (after_transition req new x))).1
          ≡ none

  -- This request's load and its writes can be audited.
  pub record CanWrite (m : Moment) (req : Request S) (top : Envelope S) (x : X) : Type 0 where
    pub loaded : (note_load rules req.actor top x).1 ≡ none
    pub concluded : CanConclude req (next_envelope rules m req top) (after_load req.actor top x)

  -- The checks before the writes let the request pass, with the other files as the load leaves them.
  pub record IsAccepted (req : Request S) (top : Envelope S) (x : X) : Type 0 where
    pub current : top.content.revision ≡ req.expected_revision
    pub allowed : rules.check_transition req top.content.state ≡ none
    pub evidence : refused_evidence rules x req.evidence_refs ≡ none
    pub shaped : rules.check_shape (req.mutate top.content.state) ≡ none

  conclude_checkpoint_code :
      (req : Request S) (new : Envelope S) (d : Disk S X)
      → ((mission reason : String)
          → mandatory_reason req.transition_type req.to_value ≡ some reason
          → rules.mission_of new.content.state req.subject ≡ some mission
          → truthy (some mission) ≡ true
          → (rules.checkpoint mission reason req.actor new d.side).1 ≡ none)
      → (conclude_checkpoint rules req new d).1.code ≡ updated
  conclude_checkpoint_code req new d w =
      elim (Option-cases (mandatory_reason req.transition_type req.to_value)) [
        | inl e ↦ rw (e, conclude_checkpoint) refl
        | inr (reason, e) ↦ elim (Option-cases (rules.mission_of new.content.state req.subject)) [
          | inl f ↦ rw (e, conclude_checkpoint, f) refl
          | inr (mission, f) ↦ elim (Bool-cases (truthy (some mission))) [
            | inr g ↦ rw (e, conclude_checkpoint, f, g) refl
            | inl g ↦ rw (e, conclude_checkpoint, f, g, w mission reason e f g) refl
          ]
        ]
      ]

  conclude_code :
      (req : Request S) (new : Envelope S) (d : Disk S X)
      → CanConclude req new d.side
      → (conclude rules req new d).1.code ≡ updated
  unfolding conclude
  conclude_code req new d w =
      let x = after_save req new (after_transition req new d.side) in
      rw (w.transitioned, conclude, w.saved)
        (conclude_checkpoint_code req new (record d { side = x }) w.checkpointed)

  module _ (shape : HashShape rules) (m : Moment) (req : Request S) where
    commit_code :
        (d : Disk S X) (v : IsValid rules d)
        → IsAccepted req v.top d.side
        → CanConclude req (next_envelope rules m req v.top) d.side
        → (commit rules m req v.top d).1.code ≡ updated
    unfolding commit refusal publish seal
    commit_code d v a w =
        let new = next_envelope rules m req v.top in
        let n = v.top.content.revision + 1 in
        let same : nat_eq v.top.content.revision req.expected_revision ≡ true =
          ground (arith, a.current) in
        let fine : refusal rules req v.top.content.state (req.mutate v.top.content.state) d.side
            ≡ none =
          rw (a.allowed, refusal, a.evidence) a.shaped in
        let (written, chain) =
          append_chain rules d.history zero_hash v.top new v.chain v.ends
            (next-IsLink rules shape m req d v a.current a.shaped) in
        let at_n : write_new (req.expected_revision + 1) new d.history
            ≡ some (d.history ++ ((n, readable new) ∷ [])) =
          subst
            (λ r. write_new (r + 1) new d.history ≡ some (d.history ++ ((n, readable new) ∷ [])))
            a.current written in
        rw (same, commit, fine, publish, at_n)
          (conclude_code req new
            (record d { history = d.history ++ ((n, readable new) ∷ []); live = readable new }) w)

    -- The store while the update holds the lock.
    abbrev held : Disk S X → Disk S X
    held d = record d { lock = readable (lock_file rules m req.actor req.expected_revision) }

    no_lock_findings :
        m.validated ≤ m.acquired + m.lease
        → validate_lock m.validated (readable (lock_file rules m req.actor req.expected_revision))
          ≡ []
    unfolding validate_lock
    no_lock_findings le =
        let fresh : ltb (m.acquired + m.lease) m.validated ≡ false = ground arith in rw fresh refl

    load_succeeds :
        (d : Disk S X) (v : IsValid rules d)
        → m.validated ≤ m.acquired + m.lease
        → rules.side_findings true d.side v.top ≡ []
        → (note_load rules req.actor v.top d.side).1 ≡ none
        → load rules req.actor true m.validated (held d) ≡ (
          record (held d) { side = after_load req.actor v.top d.side },
          report_state state_loaded v.top [],
        )
    unfolding load valid_moves
    load_succeeds d v le clean noted =
        let quiet : validate rules true true m.validated (held d) ≡ [] =
          validate_valid rules true true m.validated (held d) (no_lock_findings le)
            (valid_moves rules d (held d) refl refl v) clean in
        let read : load rules req.actor true m.validated (held d)
            ≡ read_live rules req.actor (held d) d.live =
          rw (quiet, load) refl in
        read ∙ (ap (read_live rules req.actor (held d)) v.live_is ∙ rw (noted, read_live) refl)

    -- On a valid store that no writer holds, with the other files in order and the lease not over
    -- when the load looks at it, a request that the checks let pass is committed, if the audits of
    -- this request can be written, the checkpoint too where it needs one for a mission, and hashes
    -- have the form that is asked for.
    pub update_succeeds :
        (d : Disk S X) (own : Owned) (v : IsValid rules d)
        → d.lock ≡ missing
        → m.validated ≤ m.acquired + m.lease
        → rules.side_findings true d.side v.top ≡ []
        → IsAccepted req v.top (after_load req.actor v.top d.side)
        → CanWrite m req v.top d.side
        → (update rules false m req d own).2.code ≡ updated
    unfolding valid_moves
    update_succeeds d own v l le clean a w =
        let e : Disk S X = record (held d) { side = after_load req.actor v.top d.side } in
        ap (λ r. r.2.code) (update_free rules shape m req d own l)
        ∙ (ap
              (λ r.
                (release_after rules req.actor (some m.lock_id)
                  (commit_loaded rules m req r)).2.code)
              (load_succeeds d v le clean w.loaded)
            ∙ commit_code e (valid_moves rules d e refl refl v) a w.concluded)
