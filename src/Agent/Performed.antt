-- ===== src/Agent/Performed.antt =====
-- What a method, and the registration of an agent, leave of a valid store.
use asc_orchestrator_v.Base.{
  ℕ, ◌+◌, ◌≡◌, refl, ◌∙◌, ap, ◌⊎◌, inl, inr, true, none, some, [], ◌∷◌, ◌++◌, Option-cases, String,
  ◌==◌, ◌↔◌, str_eq→eq, eq_iff, arith, Bool-cases,
}
use asc_orchestrator_v.Base.Dict.{Dict, lookup}
use asc_orchestrator_v.Pese.Types.{missing, readable, Envelope, Disk, Moment, Rules}
use asc_orchestrator_v.Pese.Update.{Owned, load}
use asc_orchestrator_v.Pese.Commits.{Same}
use asc_orchestrator_v.Pese.Valid.{IsValid}
use asc_orchestrator_v.Pese.Append.{HashShape}
use asc_orchestrator_v.Pese.Settled.{valid_moves, load_cases}
use asc_orchestrator_v.Agent.Types.{
  Agent, System, AgcError, agent_not_found, unauthorized, Reply, raises,
}
use asc_orchestrator_v.Agent.Ledger.{
  actor_orchestrator, with_agents, change_agent, require_authority,
}
use asc_orchestrator_v.Agent.Calls.{Call}
use asc_orchestrator_v.Agent.Perform.{not_loaded, checked, perform}
use asc_orchestrator_v.Agent.Turned.{
  IsDone, Unchanged, OneMore, Turned, not_loaded-not-IsDone, transition-Turned,
}

-- The orchestrator may manage any agent, and an agent itself.
abbrev pub MayManage : String → String → Type 0
MayManage actor agent_id = (actor ≡ actor_orchestrator) ⊎ (actor ≡ agent_id)

pub require_authority_iff :
    (actor agent_id : String) → (require_authority actor agent_id ≡ none) ↔ MayManage actor agent_id
unfolding require_authority
require_authority_iff actor agent_id = (to, from)
  where
    to : require_authority actor agent_id ≡ none → MayManage actor agent_id
    to h = elim (Bool-cases (actor == actor_orchestrator)) [
      | inl e ↦ inl (str_eq→eq actor actor_orchestrator e)
      | inr e ↦ elim (Bool-cases (actor == agent_id)) [
        | inl f ↦ inr (str_eq→eq actor agent_id f)
        | inr f ↦ let clash : some unauthorized ≡ none = rw (e, f) at h in cc
      ]
    ]

    from : MayManage actor agent_id → require_authority actor agent_id ≡ none
    from (inl e) = ground (arith, eq_iff actor actor_orchestrator)
    from (inr e) = ground (arith, eq_iff actor agent_id)

-- An agent that the checks of a method let pass, for an actor that may manage it.
pub record IsPassed (call : Call) (agents : Dict Agent) (agent : Agent) : Type 0 where
  pub found : lookup call.agent_id agents ≡ some agent
  pub authority : MayManage call.actor call.agent_id
  pub fits : call.check agent ≡ none

module _ {R X : Type 0} (rules : Rules (System R) X) where
  checked-cases :
      (call : Call) (agents : Dict Agent)
      → ((error : AgcError) × (checked call agents ≡ inl error))
        ⊎ ((agent : Agent) × (checked call agents ≡ inr agent) × IsPassed call agents agent)
  unfolding checked
  checked-cases call agents = elim (Option-cases (lookup call.agent_id agents)) [
    | inl e ↦ inl (agent_not_found, rw (e, checked) refl)
    | inr (agent, e) ↦ elim (Option-cases (require_authority call.actor call.agent_id)) [
      | inr (error, f) ↦ inl (error, rw (e, checked, f) refl)
      | inl f ↦ elim (Option-cases (call.check agent)) [
        | inr (error, g) ↦ inl (error, rw (e, checked, f, g) refl)
        | inl g ↦ inr (
          agent,
          rw (e, checked, f, g) refl,
          record {
            found = e;
            authority = (require_authority_iff call.actor call.agent_id).0 f;
            fits = g;
          },
        )
      ]
    ]
  ]

  -- What a method comes to: the store stays valid and unlocked; it is not done and changes nothing,
  -- or its checks let an agent pass and one revision more holds the change of that agent.
  pub record Performed (call : Call) (d : Disk (System R) X) (top : Envelope (System R))
      (r : Disk (System R) X × Owned × Reply R) : Type 0 where
    pub unlocked : r.0.lock ≡ missing
    pub valid_is : IsValid (with_agents rules) r.0
    pub effect :
        Unchanged rules d r
        ⊎ (((agent : Agent) × IsPassed call top.content.state.agents agent)
            × OneMore rules (change_agent call.agent_id call.change) d top r.0)

  not-Performed :
      (call : Call) (d e : Disk (System R) X) (v : IsValid (with_agents rules) d) (own : Owned)
      (reply : Reply R)
      → Same (with_agents rules) d e
      → d.lock ≡ missing
      → ¬ IsDone reply
      → Performed call d v.top (e, own, reply)
  not-Performed call d e v own reply s l n = record {
    unlocked = s.lock_is ∙ l;
    valid_is = valid_moves (with_agents rules) d e s.history_is s.live_is v;
    effect = inl (record { history_is = s.history_is; live_is = s.live_is; not_done = n });
  }

  passed_on :
      (call : Call) (agent : Agent) (d e : Disk (System R) X) (v : IsValid (with_agents rules) d)
      (r : Disk (System R) X × Owned × Reply R)
      → Same (with_agents rules) d e
      → IsPassed call v.top.content.state.agents agent
      → Turned rules (change_agent call.agent_id call.change) e v.top r
      → Performed call d v.top r
  passed_on call agent d e v r s p t = record {
    unlocked = t.unlocked;
    valid_is = t.valid_is;
    effect = elim t.effect [
      | inl u ↦ inl (record {
        history_is = u.history_is ∙ s.history_is;
        live_is = u.live_is ∙ s.live_is;
        not_done = u.not_done;
      })
      | inr o ↦ inr (
        (agent, p),
        record {
          new = o.new;
          history_is =
              o.history_is
              ∙ ap (λ h. h ++ ((v.top.content.revision + 1, readable o.new) ∷ [])) s.history_is;
          live_is = o.live_is;
          agents_are = o.agents_are;
          rest_is = o.rest_is;
        },
      )
    ];
  }

  -- Where hashes have the form that is asked for: on a valid store that no writer holds, a method
  -- leaves a valid store that no writer holds. It is not done and changes nothing, or the actor is
  -- the orchestrator or the agent itself, the method's checks let the agent pass, and one revision more holds the
  -- method's change of that agent and no other change of the state.
  pub perform-Performed :
      (shape : HashShape (with_agents rules)) (t u : ℕ) (m : Moment) (call : Call)
      (d : Disk (System R) X) (own : Owned) (v : IsValid (with_agents rules) d)
      → d.lock ≡ missing
      → Performed call d v.top (perform rules t u m call d own)
  unfolding perform valid_moves
  perform-Performed shape t u m call d own v l =
      let r = load (with_agents rules) call.actor true t d in
      let (s, c) = load_cases (with_agents rules) call.actor true t d v in
      elim c [
        | inr (e, n) ↦
            rw (e, perform)
              (not-Performed call d r.0 v own (not_loaded r.1.code) s l
                (not_loaded-not-IsDone R r.1.code))
        | inl e ↦ elim (checked-cases call v.top.content.state.agents) [
          | inl (error, bad) ↦
              rw (e, perform, bad) (not-Performed call d r.0 v own (raises error) s l (λ h. h))
          | inr (agent, good, p) ↦
              rw (e, perform, good)
                (passed_on call agent d r.0 v _ s p (
                  transition-Turned rules shape u m call.actor call.agent_id (some agent.status)
                    (call.target agent.status) (change_agent call.agent_id call.change)
                    call.event_type (call.event_mission agent) r.0
                    (valid_moves (with_agents rules) d r.0 s.history_is s.live_is v) own
                    (s.lock_is ∙ l)))
        ]
      ]
