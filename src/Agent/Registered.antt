-- ===== src/Agent/Registered.antt =====
-- What the registration of an agent leaves of a valid store.
use asc_orchestrator_v.Base.{
  ℕ, ◌+◌, ◌≡◌, ◌∙◌, ap, ◌⊎◌, inl, inr, true, String, none, [], ◌∷◌, ◌++◌, Option-cases,
}
use asc_orchestrator_v.Base.Dict.{lookup, insert}
use asc_orchestrator_v.Pese.Types.{missing, readable, Envelope, Disk, Moment, Rules}
use asc_orchestrator_v.Pese.Update.{Owned, load}
use asc_orchestrator_v.Pese.Commits.{Same, untouched}
use asc_orchestrator_v.Pese.Valid.{IsValid}
use asc_orchestrator_v.Pese.Append.{HashShape}
use asc_orchestrator_v.Pese.Settled.{valid_moves, load_cases}
use asc_orchestrator_v.Agent.Types.{System, duplicate_agent, initializing, Reply, raises}
use asc_orchestrator_v.Agent.Ledger.{with_agents}
use asc_orchestrator_v.Agent.Perform.{
  not_loaded, new_agent, register_refused, register_loaded, register,
}
use asc_orchestrator_v.Agent.Turned.{
  IsDone, Unchanged, OneMore, Turned, not_loaded-not-IsDone, transition-Turned,
}

module _ {R X : Type 0} (rules : Rules (System R) X) where
  -- What registering comes to: nothing is changed, or there is one agent more, new and under a
  -- name that no agent had.
  pub record Registered (agent_id acr_ref actor : String) (d : Disk (System R) X)
      (top : Envelope (System R)) (r : Disk (System R) X × Owned × Reply R) : Type 0 where
    pub unlocked : r.0.lock ≡ missing
    pub valid_is : IsValid (with_agents rules) r.0
    pub effect :
        Unchanged rules d r
        ⊎ ((register_refused agent_id acr_ref actor ≡ none)
            × (lookup agent_id top.content.state.agents ≡ none)
            × OneMore rules (insert agent_id (new_agent agent_id acr_ref)) d top r.0)

  not-Registered :
      (agent_id acr_ref actor : String) (d e : Disk (System R) X)
      (v : IsValid (with_agents rules) d) (own : Owned) (reply : Reply R)
      → Same (with_agents rules) d e
      → d.lock ≡ missing
      → ¬ IsDone reply
      → Registered agent_id acr_ref actor d v.top (e, own, reply)
  not-Registered agent_id acr_ref actor d e v own reply s l n = record {
    unlocked = s.lock_is ∙ l;
    valid_is = valid_moves (with_agents rules) d e s.history_is s.live_is v;
    effect = inl (record { history_is = s.history_is; live_is = s.live_is; not_done = n });
  }

  Registered-on :
      (agent_id acr_ref actor : String) (d e : Disk (System R) X)
      (v : IsValid (with_agents rules) d) (r : Disk (System R) X × Owned × Reply R)
      → Same (with_agents rules) d e
      → register_refused agent_id acr_ref actor ≡ none
      → lookup agent_id v.top.content.state.agents ≡ none
      → Turned rules (insert agent_id (new_agent agent_id acr_ref)) e v.top r
      → Registered agent_id acr_ref actor d v.top r
  Registered-on agent_id acr_ref actor d e v r s ok new t = record {
    unlocked = t.unlocked;
    valid_is = t.valid_is;
    effect = elim t.effect [
      | inl u ↦ inl (record {
        history_is = u.history_is ∙ s.history_is;
        live_is = u.live_is ∙ s.live_is;
        not_done = u.not_done;
      })
      | inr o ↦ inr (
        ok,
        new,
        record {
          new = o.new;
          history_is =
              o.history_is
              ∙ ap (λ h. h ++ ((v.top.content.revision + 1, readable o.new) ∷ [])) s.history_is;
          live_is = o.live_is;
          agents_are = o.agents_are;
          rest_is = o.rest_is;
        },
      )
    ];
  }

  -- Where hashes have the form that is asked for: on a valid store that no writer holds, registering
  -- leaves a valid store that no writer holds. It is not done and changes nothing, or the arguments
  -- and the actor pass the checks, no agent has the name, and one revision more holds the new agent
  -- and no other change of the state.
  pub register-Registered :
      (shape : HashShape (with_agents rules)) (t u : ℕ) (m : Moment)
      (agent_id acr_ref actor : String) (d : Disk (System R) X) (own : Owned)
      (v : IsValid (with_agents rules) d)
      → d.lock ≡ missing
      → Registered agent_id acr_ref actor d v.top
          (register rules t u m agent_id acr_ref actor d own)
  unfolding register register_loaded valid_moves
  register-Registered shape t u m agent_id acr_ref actor d own v l =
      let r = load (with_agents rules) actor true t d in
      let (s, c) = load_cases (with_agents rules) actor true t d v in
      elim (Option-cases (register_refused agent_id acr_ref actor)) [
        | inr (error, bad) ↦
            rw (bad, register)
              (not-Registered agent_id acr_ref actor d d v own (raises error)
                (untouched (with_agents rules) d d.side) l (λ h. h))
        | inl ok ↦ elim c [
          | inr (e, n) ↦
              rw (ok, register, e)
                (not-Registered agent_id acr_ref actor d r.0 v own (not_loaded r.1.code) s l
                  (not_loaded-not-IsDone R r.1.code))
          | inl e ↦ elim (Option-cases (lookup agent_id v.top.content.state.agents)) [
            | inr (agent, known) ↦
                rw (ok, register, e, register_loaded, known)
                  (not-Registered agent_id acr_ref actor d r.0 v own (raises duplicate_agent) s l
                    (λ h. h))
            | inl new ↦
                rw (ok, register, e, register_loaded, new)
                  (Registered-on agent_id acr_ref actor d r.0 v _ s ok new (
                    transition-Turned rules shape u m actor agent_id none initializing
                      (insert agent_id (new_agent agent_id acr_ref)) "AGENT_REGISTERED" none r.0
                      (valid_moves (with_agents rules) d r.0 s.history_is s.live_is v) own
                      (s.lock_is ∙ l)))
          ]
        ]
      ]
