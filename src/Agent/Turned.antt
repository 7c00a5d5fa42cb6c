-- ===== src/Agent/Turned.antt =====
-- What a transition of an agent leaves of a valid store.
use asc_orchestrator_v.Base.{
  ℕ, ◌+◌, ◌≡◌, refl, ◌∙◌, ap, ◌⊎◌, inl, inr, String, true, false, Option, [], ◌∷◌, ◌++◌,
}
use asc_orchestrator_v.Base.Dict.{Dict}
use asc_orchestrator_v.Pese.Types.{
  Code, updated, state_corrupt, missing, readable, Envelope, Disk, Moment, Rules,
}
use asc_orchestrator_v.Pese.Update.{Owned, load, seal}
use asc_orchestrator_v.Pese.Commit.{update, next_envelope}
use asc_orchestrator_v.Pese.Commits.{Same}
use asc_orchestrator_v.Pese.Valid.{IsValid}
use asc_orchestrator_v.Pese.Append.{HashShape}
use asc_orchestrator_v.Pese.Settled.{valid_moves, load_cases, update-Settled}
use asc_orchestrator_v.Agent.Types.{
  AgentStatus, Agent, System, Reply, raises, lets_through, returns,
}
use asc_orchestrator_v.Agent.Ledger.{with_agents}
use asc_orchestrator_v.Agent.Perform.{not_loaded, transition_request, reply_with, transition}

-- The method is reported as done.
abbrev pub IsDone : {R : Type 0} → Reply R → Type 0
IsDone (raises error) = ⊥
IsDone (lets_through code) = ⊥
IsDone (returns outcome event) = outcome.code ≡ updated

pub not_loaded-not-IsDone : (R : Type 0) (code : Code) → ¬ IsDone (not_loaded {R = R} code)
not_loaded-not-IsDone R state_corrupt = λ h. cc
not_loaded-not-IsDone R other = λ h. h

module _ {R X : Type 0} (rules : Rules (System R) X) where
  -- The history and live.json are as they were.
  pub record Unchanged (d : Disk (System R) X) (r : Disk (System R) X × Owned × Reply R)
      : Type 0 where
    pub history_is : r.0.history ≡ d.history
    pub live_is : r.0.live ≡ d.live
    pub not_done : ¬ IsDone r.2

  -- There is one revision more, in which the agents alone are changed.
  pub record OneMore (change : Dict Agent → Dict Agent) (d : Disk (System R) X)
      (top : Envelope (System R)) (e : Disk (System R) X) : Type 0 where
    pub new : Envelope (System R)
    pub history_is : e.history ≡ d.history ++ ((top.content.revision + 1, readable new) ∷ [])
    pub live_is : e.live ≡ readable new
    pub agents_are : new.content.state.agents ≡ change top.content.state.agents
    pub rest_is : new.content.state.rest ≡ top.content.state.rest

  pub record Turned (change : Dict Agent → Dict Agent) (d : Disk (System R) X)
      (top : Envelope (System R)) (r : Disk (System R) X × Owned × Reply R) : Type 0 where
    pub unlocked : r.0.lock ≡ missing
    pub valid_is : IsValid (with_agents rules) r.0
    pub effect : Unchanged d r ⊎ OneMore change d top r.0

  -- A store that differs in nothing but the files that the model does not look into.
  pub Turned-back :
      (change : Dict Agent → Dict Agent) (d e : Disk (System R) X)
      (v : IsValid (with_agents rules) d) (own : Owned) (reply : Reply R)
      → Same (with_agents rules) d e
      → d.lock ≡ missing
      → ¬ IsDone reply
      → Turned change d v.top (e, own, reply)
  Turned-back change d e v own reply s l n = record {
    unlocked = s.lock_is ∙ l;
    valid_is = valid_moves (with_agents rules) d e s.history_is s.live_is v;
    effect = inl (record { history_is = s.history_is; live_is = s.live_is; not_done = n });
  }

  settled-Turned :
      (shape : HashShape (with_agents rules)) (m : Moment) (actor agent_id : String)
      (before : Option AgentStatus) (after : AgentStatus) (change : Dict Agent → Dict Agent)
      (event : String) (mission : Option String) (d e : Disk (System R) X)
      (v : IsValid (with_agents rules) d) (own : Owned) (s : Same (with_agents rules) d e)
      → d.lock ≡ missing
      → Turned change d v.top (
          reply_with rules event mission (
            update
              (with_agents rules)
              false
              m
              (transition_request rules actor agent_id before after change v.top.content.revision)
              e
              own))
  unfolding valid_moves seal
  settled-Turned shape m actor agent_id before after change event mission d e v own s l =
      let req =
        transition_request rules actor agent_id before after change v.top.content.revision in
      let w = valid_moves (with_agents rules) d e s.history_is s.live_is v in
      let u = update-Settled (with_agents rules) shape m req e own w (s.lock_is ∙ l) in
      record {
        unlocked = u.unlocked;
        valid_is = u.valid_is;
        effect = elim u.effect [
          | inl (h, live, n) ↦
              inl
                (record { history_is = h ∙ s.history_is; live_is = live ∙ s.live_is; not_done = n })
          | inr (current, h, live, allowed) ↦
              let new = next_envelope (with_agents rules) m req v.top in
              inr (record {
                new = new;
                history_is =
                    h
                    ∙ ap (λ xs. xs ++ ((v.top.content.revision + 1, readable new) ∷ []))
                        s.history_is;
                live_is = live;
                agents_are = refl;
                rest_is = refl;
              })
        ];
      }

  -- A transition on a valid store that no writer holds.
  pub transition-Turned :
      (shape : HashShape (with_agents rules)) (t : ℕ) (m : Moment) (actor agent_id : String)
      (before : Option AgentStatus) (after : AgentStatus) (change : Dict Agent → Dict Agent)
      (event : String) (mission : Option String) (d : Disk (System R) X)
      (v : IsValid (with_agents rules) d) (own : Owned)
      → d.lock ≡ missing
      → Turned change d v.top
          (transition rules t m actor agent_id before after change event mission d own)
  unfolding transition
  transition-Turned shape t m actor agent_id before after change event mission d v own l =
      let r = load (with_agents rules) actor true t d in
      let (s, c) = load_cases (with_agents rules) actor true t d v in
      elim c [
        | inl e ↦
            rw (e, transition)
              (settled-Turned shape m actor agent_id before after change event mission d r.0 v own s
                l)
        | inr (e, n) ↦
            rw (e, transition)
              (Turned-back change d r.0 v own (not_loaded r.1.code) s l
                (not_loaded-not-IsDone R r.1.code))
      ]
