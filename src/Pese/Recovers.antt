-- ===== src/Pese/Recovers.antt =====
-- What recovery makes of a store whose live.json was left behind.
use asc_orchestrator_v.Base.{
  ℕ, ◌+◌, ◌≡◌, ◌≢◌, refl, sym, ◌∙◌, ap, subst, inl, inr, String, Bool, true, false, Option, none,
  some, List, [], ◌∷◌, ◌++◌, select, str_eq_refl, ◌==◌, Bool-cases, Option-cases,
}
use asc_orchestrator_v.Pese.Types.{
  lock_acquired, Envelope, File, missing, unreadable, readable, Finding, Outcome, Disk, Moment,
  Rules,
}
use asc_orchestrator_v.Pese.Validate.{zero_hash, check_live, validate, validate_envelope}
use asc_orchestrator_v.Pese.Update.{report, Owned, owns, lock_file, acquire_lock, release_lock}
use asc_orchestrator_v.Pese.Chain.{last_or, IsChain, bad_files_none, walk_chain}
use asc_orchestrator_v.Pese.Valid.{IsValid, start, history_nonempty}
use asc_orchestrator_v.Pese.Commit.{is_non_live, release_after}
use asc_orchestrator_v.Pese.Recover.{
  last_file, promote, after_recovery_lock, take_over, past_lock, recover,
}

module _ {S X : Type 0} (rules : Rules S X) where
  -- The last file of a chain is its last envelope, which is accepted.
  chain_last :
      (next : ℕ) (previous : String) (files : List (ℕ × File (Envelope S))) (n : ℕ)
      (e top : Envelope S)
      → IsChain rules next previous ((n, readable e) ∷ files)
      → last_or (some e) files ≡ some top
      → (last_file ((n, readable e) ∷ files) ≡ readable top) × (validate_envelope rules top ≡ none)
  chain_last next previous [] n e top (k, l, c) h =
      let is : e ≡ top = cc in
      (ap readable is, subst (λ v. validate_envelope rules v ≡ none) is l.accepted)
  chain_last next previous ((m, missing) ∷ files) n e top (k, l, c) h = absurd c
  chain_last next previous ((m, unreadable) ∷ files) n e top (k, l, c) h = absurd c
  chain_last next previous ((m, readable f) ∷ files) n e top (k, l, c) h =
      chain_last (next + 1) e.content.state_sha256 files m f top c h

  pub chain_top :
      (previous : String) (files : List (ℕ × File (Envelope S))) (top : Envelope S)
      → IsChain rules 1 previous files
      → last_or none files ≡ some top
      → (last_file files ≡ readable top) × (validate_envelope rules top ≡ none)
  chain_top previous [] top c h = cc
  chain_top previous ((m, missing) ∷ files) top c h = absurd c
  chain_top previous ((m, unreadable) ∷ files) top c h = absurd c
  chain_top previous ((m, readable f) ∷ files) top c h = chain_last 1 previous files m f top c h

  -- live.json can be behind, or not be there, without a finding that stops recovery.
  live_ignored :
      (live : File (Envelope S)) (top : Envelope S)
      → live ≢ unreadable
      → select is_non_live (check_live rules live top) ≡ []
  unfolding check_live
  live_ignored missing top n = refl
  live_ignored unreadable top n = absurd (n refl)
  live_ignored (readable live) top n =
      elim (Bool-cases (rules.canonical_json live == rules.canonical_json top)) [
        | inl e ↦ rw e refl
        | inr e ↦ rw e refl
      ]

  append_empty : (xs : List Finding) → xs ++ [] ≡ xs
  append_empty [] = refl
  append_empty (x ∷ xs) = ap (λ l. x ∷ l) (append_empty xs)

  -- A store that a writer left between its two writes, or with any earlier live.json.
  pub record Interrupted (d : Disk S X) (top : Envelope S) : Type 0 where
    pub chain : IsChain rules 1 zero_hash d.history
    pub ends : last_or none d.history ≡ some top
    pub live_ok : d.live ≢ unreadable
    pub clean : rules.side_findings false d.side top ≡ []

  Interrupted-findings :
      (now : ℕ) (d : Disk S X) (top : Envelope S)
      → Interrupted d top
      → select is_non_live (validate rules false false now d) ≡ []
  unfolding validate
  Interrupted-findings now d top i =
      let (f, last) = walk_chain rules 1 d.history (start {S = S} {X = X} rules) i.chain in
      rw
        (
          bad_files_none rules 1 zero_hash d.history i.chain,
          history_nonempty rules d.history top i.ends,
          f,
          last,
          i.ends,
          i.clean,
          append_empty (check_live rules d.live top),
        )
        (live_ignored d.live top i.live_ok)

  -- What recovery leaves: a valid, unlocked store with the same history, and live.json is the last
  -- envelope of it.
  pub record Recovered (d : Disk S X) (top : Envelope S) (r : Disk S X × Owned × Outcome S)
      : Type 0 where
    pub unlocked : r.0.lock ≡ missing
    pub history_is : r.0.history ≡ d.history
    pub live_is : r.0.live ≡ readable top
    pub valid_is : IsValid rules r.0

  -- What the promotion leaves, before the lock is released.
  record Promoted (d : Disk S X) (top : Envelope S) (r : Disk S X × Outcome S) : Type 0 where
    history_is : r.0.history ≡ d.history
    live_is : r.0.live ≡ readable top
    lock_is : r.0.lock ≡ d.lock

  promote_accepted :
      (d : Disk S X) (top : Envelope S)
      → validate_envelope rules top ≡ none
      → Promoted d top (promote rules (readable top) d)
  promote_accepted d top ok = elim (Option-cases (rules.note_recovery top d.side).1) [
    | inl e ↦ rw (ok, promote, e) (record { history_is = refl; live_is = refl; lock_is = refl })
    | inr (code, e) ↦
        rw (ok, promote, e) (record { history_is = refl; live_is = refl; lock_is = refl })
  ]

  module _ (m : Moment) (actor : String) where
    lock_is_ours : owns (readable (lock_file rules m actor 0)) (some m.lock_id) actor ≡ true
    unfolding owns
    lock_is_ours = rw (str_eq_refl m.lock_id, str_eq_refl actor) refl

    released :
        (d : Disk S X) (outcome : Outcome S)
        → d.lock ≡ readable (lock_file rules m actor 0)
        → release_after rules actor (some m.lock_id) (d, outcome)
          ≡ (record d { lock = missing }, none, outcome)
    unfolding release_lock
    released d outcome l = rw (l, release_lock, lock_is_ours) refl

    taken :
        (d : Disk S X) (own : Owned)
        → d.lock ≡ missing
        → acquire_lock rules m actor 0 d own ≡ (
          record d { lock = readable (lock_file rules m actor 0) },
          some m.lock_id,
          report lock_acquired [],
        )
    unfolding acquire_lock
    taken d own l = rw (l, acquire_lock) refl

    settle_recovery :
        (d : Disk S X) (top : Envelope S) (r : Disk S X × Outcome S)
        → Interrupted d top
        → Promoted (record d { lock = readable (lock_file rules m actor 0) }) top r
        → Recovered d top (release_after rules actor (some m.lock_id) r)
    settle_recovery d top (e, outcome) i p = rw (released e outcome p.lock_is) (record {
      unlocked = refl;
      history_is = p.history_is;
      live_is = p.live_is;
      valid_is = record {
        chain = subst (IsChain rules 1 zero_hash) (sym p.history_is) i.chain;
        top = top;
        ends = ap (last_or none) p.history_is ∙ i.ends;
        live_is = p.live_is;
      };
    })

    take_over-Recovered :
        (d : Disk S X) (own : Owned) (top : Envelope S)
        → Interrupted d top
        → d.lock ≡ missing
        → Recovered d top (take_over rules m actor d own)
    take_over-Recovered d own top i l =
        let held : Disk S X = record d { lock = readable (lock_file rules m actor 0) } in
        let (file, ok) = chain_top zero_hash d.history top i.chain i.ends in
        let p =
          subst (λ f. Promoted held top (promote rules f held)) (sym file)
            (promote_accepted held top ok) in
        subst (Recovered d top) (sym (ap (after_recovery_lock rules actor) (taken d own l)))
          (settle_recovery d top (promote rules (last_file d.history) held) i p)

    -- Recovery of a store whose history is one chain, whose live.json is missing or an envelope,
    -- whose other files are in order and that no writer holds: the store is valid and not locked,
    -- its history is the same, and live.json holds the last envelope.
    pub recover-Recovered :
        (stale : Bool) (alive : Option Bool) (d : Disk S X) (own : Owned) (top : Envelope S)
        → Interrupted d top
        → d.lock ≡ missing
        → Recovered d top (recover rules m actor stale alive d own)
    unfolding recover
    recover-Recovered stale alive d own top i l = rw (Interrupted-findings m.validated d top i) (
        subst (λ f. Recovered d top (past_lock rules m actor stale alive d own f)) (sym l)
          (take_over-Recovered d own top i l))
