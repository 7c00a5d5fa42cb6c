-- ===== src/Pese/Settled.antt =====
-- What an update leaves of a valid store.
use asc_orchestrator_v.Base.{
  String, ℕ, ◌+◌, ◌≡◌, ◌≢◌, refl, sym, ◌∙◌, ap, subst, ◌⊎◌, inl, inr, Bool, true, false, none, some,
  List, [], ◌∷◌, ◌++◌, str_eq_refl, Option-cases,
}
use asc_orchestrator_v.Pese.Types.{
  Code, state_corrupt, updated, lock_acquired, Envelope, missing, readable, LockFile, Finding,
  Outcome, Request, Disk, Moment, Rules,
}
use asc_orchestrator_v.Pese.Validate.{zero_hash, validate}
use asc_orchestrator_v.Pese.Update.{
  note_load, report, Owned, owns, read_live, load, lock_file, acquire_lock, release_lock,
}
use asc_orchestrator_v.Pese.Valid.{IsValid}
use asc_orchestrator_v.Pese.Chain.{last_or, IsChain}
use asc_orchestrator_v.Pese.Append.{HashShape}
use asc_orchestrator_v.Pese.Commit.{
  next_envelope, unloaded, commit, commit_loaded, release_after, after_acquire, update,
}
use asc_orchestrator_v.Pese.Commits.{Same, Appended, untouched, commit_cases}

module _ {S X : Type 0} (rules : Rules S X) where
  -- Of two stores with the same chain and live.json, both are valid or neither is.
  unfoldable pub valid_moves :
      (d e : Disk S X) → e.history ≡ d.history → e.live ≡ d.live → IsValid rules d → IsValid rules e
  valid_moves d e h l v = record {
    chain = subst (IsChain rules 1 zero_hash) (sym h) v.chain;
    top = v.top;
    ends = ap (last_or none) h ∙ v.ends;
    live_is = l ∙ v.live_is;
  }

  -- What loading answers for a valid store.
  abbrev pub Answers : Disk S X → Envelope S → Disk S X × Outcome S → Type 0
  Answers d top r =
      Same rules d r.0
      × ((r.1.envelope ≡ some top) ⊎ ((r.1.envelope ≡ none) × (r.1.code ≢ updated)))

  read_live_cases :
      (actor : String) (d : Disk S X) (top : Envelope S)
      → Answers d top (read_live rules actor d (readable top))
  read_live_cases actor d top = elim (Option-cases (note_load rules actor top d.side).1) [
    | inl e ↦ rw (e, read_live) (untouched rules d (note_load rules actor top d.side).0, inl refl)
    | inr (code, e) ↦
        rw (e, read_live)
          (untouched rules d (note_load rules actor top d.side).0, inr (refl, λ h. cc))
  ]

  corrupt_or :
      (fs : List Finding) → (fs ≡ []) ⊎ ((f : Finding) × (gs : List Finding) × (fs ≡ f ∷ gs))
  corrupt_or [] = inl refl
  corrupt_or (f ∷ fs) = inr (f, fs, refl)

  pub load_cases :
      (actor : String) (migrations : Bool) (now : ℕ) (d : Disk S X) (v : IsValid rules d)
      → Answers d v.top (load rules actor migrations now d)
  unfolding load
  load_cases actor migrations now d v = elim (corrupt_or (validate rules true migrations now d)) [
    | inl e ↦
        rw (e, load)
          (subst (λ l. Answers d v.top (read_live rules actor d l)) (sym v.live_is)
            (read_live_cases actor d v.top))
    | inr (f, gs, e) ↦ rw (e, load) (untouched rules d d.side, inr (refl, λ h. cc))
  ]

  -- What is left after the body of an update.
  abbrev pub Ends : Moment → Request S → Envelope S → Disk S X → Disk S X × Outcome S → Type 0
  Ends m req top d r = (Same rules d r.0 × (r.1.code ≢ updated)) ⊎ Appended rules m req top d r.0

  unloaded_not : (code : Code) → code ≢ updated → unloaded code ≢ updated
  unloaded_not state_corrupt n = λ h. cc
  unloaded_not other n = n

  module _ (shape : HashShape rules) (m : Moment) (req : Request S) where
    commit_moved :
        (d e : Disk S X) (v : IsValid rules d)
        → Same rules d e
        → Ends m req v.top d (commit rules m req v.top e)
    unfolding valid_moves
    commit_moved d e v s =
        elim (commit_cases rules shape m req e (valid_moves d e s.history_is s.live_is v)) [
          | inl (t, n) ↦ inl (
            record {
              history_is = t.history_is ∙ s.history_is;
              live_is = t.live_is ∙ s.live_is;
              lock_is = t.lock_is ∙ s.lock_is;
            },
            n,
          )
          | inr a ↦ inr (record {
            current = a.current;
            history_is =
                a.history_is
                ∙ ap
                    (λ h.
                      h
                      ++ ((v.top.content.revision + 1, readable (next_envelope rules m req v.top))
                          ∷ []))
                    s.history_is;
            live_is = a.live_is;
            lock_is = a.lock_is ∙ s.lock_is;
            valid_is = a.valid_is;
            allowed = a.allowed;
            shaped = a.shaped;
          })
        ]

    -- The body of an update, from the load on.
    body_cases :
        (migrations : Bool) (d : Disk S X) (v : IsValid rules d)
        → Ends m req v.top d
            (commit_loaded rules m req (load rules req.actor migrations m.validated d))
    body_cases migrations d v =
        let r = load rules req.actor migrations m.validated d in
        let (s, c) = load_cases req.actor migrations m.validated d v in
        elim c [
          | inl e ↦ rw (e, commit_loaded) (commit_moved d r.0 v s)
          | inr (e, n) ↦ rw (e, commit_loaded) (inl (s, unloaded_not r.1.code n))
        ]

    -- What an update comes to: the lock is free again, the store valid, and either nothing is
    -- changed and it is not reported as done, or there is one envelope more, which says what was
    -- asked for, on top of the revision that was expected.
    pub record Settled (d : Disk S X) (top : Envelope S) (r : Disk S X × Owned × Outcome S)
        : Type 0 where
      pub unlocked : r.0.lock ≡ missing
      pub disowned : r.1 ≡ none
      pub valid_is : IsValid rules r.0
      pub effect :
          ((r.0.history ≡ d.history) × (r.0.live ≡ d.live) × (r.2.code ≢ updated))
          ⊎ ((top.content.revision ≡ req.expected_revision)
              × (r.0.history
                  ≡ d.history
                    ++ ((top.content.revision + 1, readable (next_envelope rules m req top)) ∷ []))
              × (r.0.live ≡ readable (next_envelope rules m req top))
              × (rules.check_transition req top.content.state ≡ none))

    release_ends :
        (d : Disk S X) (own : Owned) (outcome : Outcome S) (lock : LockFile)
        → d.lock ≡ readable lock
        → owns (readable lock) own req.actor ≡ true
        → release_after rules req.actor own (d, outcome)
          ≡ (record d { lock = missing }, none, outcome)
    unfolding release_lock
    release_ends d own outcome lock l o = rw (l, release_lock, o) refl

    -- The store while the update holds the lock.
    abbrev held : Disk S X → Disk S X
    held d = record d { lock = readable (lock_file rules m req.actor req.expected_revision) }

    acquire_free :
        (d : Disk S X) (own : Owned)
        → d.lock ≡ missing
        → acquire_lock rules m req.actor req.expected_revision d own
          ≡ (held d, some m.lock_id, report lock_acquired [])
    unfolding acquire_lock
    acquire_free d own l = rw (l, acquire_lock) refl

    pub update_free :
        (d : Disk S X) (own : Owned)
        → d.lock ≡ missing
        → update rules false m req d own
          ≡ release_after rules req.actor
              (some m.lock_id)
              (commit_loaded rules m req (load rules req.actor true m.validated (held d)))
    unfolding update
    update_free d own l = ap (after_acquire rules m req) (acquire_free d own l)

    owned :
        owns
          (readable (lock_file rules m req.actor req.expected_revision))
          (some m.lock_id)
          req.actor
        ≡ true
    unfolding owns
    owned = rw (str_eq_refl m.lock_id, str_eq_refl req.actor) refl

    settle :
        (d : Disk S X) (v : IsValid rules d) (r : Disk S X × Outcome S)
        → Ends m req v.top (held d) r
        → Settled d v.top (release_after rules req.actor (some m.lock_id) r)
    settle d v (e, outcome) (inl (s, n)) =
        rw
          (release_ends e (some m.lock_id) outcome
            (lock_file rules m req.actor req.expected_revision) s.lock_is owned)
          (record {
            unlocked = refl;
            disowned = refl;
            valid_is = valid_moves d (record e { lock = missing }) s.history_is s.live_is v;
            effect = inl (s.history_is, s.live_is, n);
          })
    settle d v (e, outcome) (inr a) =
        rw
          (release_ends e (some m.lock_id) outcome
            (lock_file rules m req.actor req.expected_revision) a.lock_is owned)
          (record {
            unlocked = refl;
            disowned = refl;
            valid_is = valid_moves e (record e { lock = missing }) refl refl a.valid_is;
            effect = inr (a.current, a.history_is, a.live_is, a.allowed);
          })

    -- Where hashes have the form that is asked for: on a valid store that no writer holds, an
    -- update leaves a valid store that no writer holds, with the same history, or with one envelope
    -- more on top of the expected revision.
    pub update-Settled :
        (d : Disk S X) (own : Owned) (v : IsValid rules d)
        → d.lock ≡ missing
        → Settled d v.top (update rules false m req d own)
    unfolding valid_moves
    update-Settled d own v l = subst (Settled d v.top) (sym (update_free d own l)) (
        settle d v (commit_loaded rules m req (load rules req.actor true m.validated (held d)))
          (body_cases true (held d) (valid_moves d (held d) refl refl v)))
