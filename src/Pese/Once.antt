-- ===== src/Pese/Once.antt =====
-- Of two updates that expect the same revision, one at most is committed.
use asc_orchestrator_v.Base.{◌+◌, ◌≡◌, ◌≢◌, sym, ◌∙◌, ap, inl, inr, false, arith}
use asc_orchestrator_v.Pese.Types.{
  updated, Envelope, missing, readable, Request, Disk, Moment, Rules,
}
use asc_orchestrator_v.Pese.Update.{Owned, seal}
use asc_orchestrator_v.Pese.Valid.{IsValid}
use asc_orchestrator_v.Pese.Append.{HashShape}
use asc_orchestrator_v.Pese.Commit.{next_envelope, update}
use asc_orchestrator_v.Pese.Settled.{update-Settled}

module _ {S X : Type 0} (rules : Rules S X) where
  -- The envelope on top of a valid store is the one in live.json.
  top_live : (d : Disk S X) (v : IsValid rules d) (e : Envelope S) → d.live ≡ readable e → v.top ≡ e
  top_live d v e l = let same : readable v.top ≡ readable e = sym v.live_is ∙ l in cc

  -- Where hashes have the form that is asked for: of two updates of a valid store that no writer
  -- holds, one after the other, that expect the same revision, the second is not committed when the
  -- first is reported as done: the history and live.json stay as the first left them.
  pub update_once :
      (shape : HashShape rules) (m n : Moment) (req next : Request S) (d : Disk S X)
      (own mine : Owned) (v : IsValid rules d)
      → d.lock ≡ missing
      → next.expected_revision ≡ req.expected_revision
      → (update rules false m req d own).2.code ≡ updated
      → let first = (update rules false m req d own).0 in
        ((update rules false n next first mine).0.history ≡ first.history)
        × ((update rules false n next first mine).0.live ≡ first.live)
        × ((update rules false n next first mine).2.code ≢ updated)
  unfolding seal
  update_once shape m n req next d own mine v l same done =
      let one = update-Settled rules shape m req d own v l in
      let first = (update rules false m req d own).0 in
      let two = update-Settled rules shape n next first mine one.valid_is one.unlocked in
      elim two.effect [
        | inl kept ↦ kept
        | inr (expected, h₂, live₂, allowed₂) ↦ elim one.effect [
          | inl (h, live, not_done) ↦ absurd (not_done done)
          | inr (current, h, live, allowed) ↦
              let top = top_live first one.valid_is (next_envelope rules m req v.top) live in
              let later : one.valid_is.top.content.revision ≡ req.expected_revision + 1 =
                ap (λ e. e.content.revision) top in
              absurd (omega (arith, expected, later, same))
        ]
      ]
