-- ===== src/Pese/Commits.antt =====
-- What a commit leaves of a valid store: the same chain, or the chain and one envelope more.
use asc_orchestrator_v.Base.{
  ◌+◌, ◌≡◌, ◌≢◌, refl, sym, ◌∙◌, ap, subst, ◌⊎◌, inl, inr, none, some, [], ◌∷◌, ◌++◌, arith, nat_eq,
  Bool-cases, Option-cases,
}
use asc_orchestrator_v.Base.Truthy.{truthy}
use asc_orchestrator_v.Pese.Types.{updated, Envelope, readable, Request, Disk, Moment, Rules}
use asc_orchestrator_v.Pese.Validate.{zero_hash}
use asc_orchestrator_v.Pese.Update.{mandatory_reason, write_new, seal}
use asc_orchestrator_v.Pese.Chain.{last_or, IsLink, IsChain}
use asc_orchestrator_v.Pese.Valid.{IsValid}
use asc_orchestrator_v.Pese.Append.{last_snoc, HashShape, seal_accepted, append_chain}
use asc_orchestrator_v.Pese.Commit.{
  note_save, refused_evidence, refusal, conclude_checkpoint, conclude, next_envelope, publish,
  commit,
}

module _ {S X : Type 0} (rules : Rules S X) where
  -- The chain, live.json and the lock are those of another store.
  pub record Same (d e : Disk S X) : Type 0 where
    pub history_is : e.history ≡ d.history
    pub live_is : e.live ≡ d.live
    pub lock_is : e.lock ≡ d.lock

  -- The store holds one envelope more.
  pub record Appended (m : Moment) (req : Request S) (top : Envelope S) (d e : Disk S X)
      : Type 0 where
    pub current : top.content.revision ≡ req.expected_revision
    pub history_is :
        e.history
        ≡ d.history ++ ((top.content.revision + 1, readable (next_envelope rules m req top)) ∷ [])
    pub live_is : e.live ≡ readable (next_envelope rules m req top)
    pub lock_is : e.lock ≡ d.lock
    pub valid_is : IsValid rules e
    pub allowed : rules.check_transition req top.content.state ≡ none
    pub shaped : rules.check_shape (req.mutate top.content.state) ≡ none

  pub untouched : (d : Disk S X) (x : X) → Same d (record d { side = x })
  untouched d x = record { history_is = refl; live_is = refl; lock_is = refl }

  conclude_checkpoint-Same :
      (req : Request S) (new : Envelope S) (d : Disk S X)
      → Same d (conclude_checkpoint rules req new d).0
  conclude_checkpoint-Same req new d =
      elim (Option-cases (mandatory_reason req.transition_type req.to_value)) [
        | inl e ↦ rw (e, conclude_checkpoint) (untouched d d.side)
        | inr (reason, e) ↦ elim (Option-cases (rules.mission_of new.content.state req.subject)) [
          | inl f ↦ rw (e, conclude_checkpoint, f) (untouched d d.side)
          | inr (mission, f) ↦ elim (Bool-cases (truthy (some mission))) [
            | inr g ↦ rw (e, conclude_checkpoint, f, g) (untouched d d.side)
            | inl g ↦ elim (Option-cases (rules.checkpoint mission reason req.actor new d.side).1) [
              | inl h ↦
                  rw (e, conclude_checkpoint, f, g, h)
                    (untouched d (rules.checkpoint mission reason req.actor new d.side).0)
              | inr (code, h) ↦
                  rw (e, conclude_checkpoint, f, g, h)
                    (untouched d (rules.checkpoint mission reason req.actor new d.side).0)
            ]
          ]
        ]
      ]

  conclude-Same :
      (req : Request S) (new : Envelope S) (d : Disk S X) → Same d (conclude rules req new d).0
  unfolding conclude
  conclude-Same req new d = elim (Option-cases (rules.note_transition req new d.side).1) [
    | inr (code, e) ↦ rw (e, conclude) (untouched d (rules.note_transition req new d.side).0)
    | inl e ↦
        (let x = (rules.note_transition req new d.side).0 in
          elim (Option-cases (note_save rules req new x).1) [
            | inr (code, f) ↦ rw (e, conclude, f) (untouched d (note_save rules req new x).0)
            | inl f ↦
                let s =
                  conclude_checkpoint-Same req new
                    (record d { side = (note_save rules req new x).0 }) in
                rw (e, conclude, f)
                  (record { history_is = s.history_is; live_is = s.live_is; lock_is = s.lock_is })
          ])
  ]

  -- The checks before the writes, when they raise nothing.
  refusal-none :
      (req : Request S) (before after : S) (side : X)
      → refusal rules req before after side ≡ none
      → (rules.check_transition req before ≡ none) × (rules.check_shape after ≡ none)
  unfolding refusal
  refusal-none req before after side h = elim (Option-cases (rules.check_transition req before)) [
    | inr (code, e) ↦ let clash : some code ≡ none = rw (e, refusal) at h in cc
    | inl e ↦ elim (Option-cases (refused_evidence rules side req.evidence_refs)) [
      | inr (code, f) ↦ let clash : some code ≡ none = rw (e, refusal, f) at h in cc
      | inl f ↦ (e, rw (e, refusal, f) at h)
    ]
  ]

  module _ (shape : HashShape rules) (m : Moment) (req : Request S) (d : Disk S X)
      (v : IsValid rules d) where
    pub next-IsLink :
        v.top.content.revision ≡ req.expected_revision
        → rules.check_shape (req.mutate v.top.content.state) ≡ none
        → IsLink rules
            (v.top.content.revision + 1)
            v.top.content.state_sha256
            (next_envelope rules m req v.top)
    unfolding seal
    next-IsLink k ok = record {
      number = omega (arith, k);
      parent = omega (arith, k);
      linked = refl;
      accepted =
          seal_accepted rules shape (req.mutate v.top.content.state) req.expected_revision
            m.created_at req.actor req.expected_revision v.top.content.state_sha256 ok;
    }

    -- Publishing on the valid store.
    published :
        v.top.content.revision ≡ req.expected_revision
        → rules.check_transition req v.top.content.state ≡ none
        → rules.check_shape (req.mutate v.top.content.state) ≡ none
        → Appended m req v.top d (publish rules m req v.top d).0
    unfolding publish seal
    published k allowed ok =
        let new = next_envelope rules m req v.top in
        let n = v.top.content.revision + 1 in
        let (written, chain) =
          append_chain rules d.history zero_hash v.top new v.chain v.ends (next-IsLink k ok) in
        let at_n : write_new (req.expected_revision + 1) new d.history
            ≡ some (d.history ++ ((n, readable new) ∷ [])) =
          subst
            (λ r. write_new (r + 1) new d.history ≡ some (d.history ++ ((n, readable new) ∷ []))) k
            written in
        let e : Disk S X = record d {
          history = d.history ++ ((n, readable new) ∷ []);
          live = readable new;
        } in
        let s = conclude-Same req new e in
        let there : (publish rules m req v.top d).0 ≡ (conclude rules req new e).0 =
          rw (at_n, publish) refl in
        subst (Appended m req v.top d) (sym there) (record {
          current = k;
          history_is = s.history_is;
          live_is = s.live_is;
          lock_is = s.lock_is;
          valid_is = record {
            chain = subst (IsChain rules 1 zero_hash) (sym s.history_is) chain;
            top = new;
            ends = ap (last_or none) s.history_is ∙ last_snoc rules none d.history n new;
            live_is = s.live_is;
          };
          allowed = allowed;
          shaped = ok;
        })

    -- A commit changes nothing, and is not reported as done, or appends the next envelope.
    pub commit_cases :
        (Same d (commit rules m req v.top d).0 × ((commit rules m req v.top d).1.code ≢ updated))
        ⊎ Appended m req v.top d (commit rules m req v.top d).0
    unfolding commit
    commit_cases = elim (Bool-cases (nat_eq v.top.content.revision req.expected_revision)) [
      | inr differ ↦ rw (differ, commit) (inl (untouched d d.side, λ h. cc))
      | inl same ↦
          elim (Option-cases
            (refusal rules req v.top.content.state (req.mutate v.top.content.state) d.side)) [
              | inr (code, refused) ↦ rw (same, commit, refused) (inl (untouched d d.side, λ h. cc))
              | inl fine ↦
                  let (allowed, ok) =
                    refusal-none req v.top.content.state (req.mutate v.top.content.state) d.side
                      fine in
                  rw (same, commit, fine) (inr (published (ground arith) allowed ok))
            ]
    ]
