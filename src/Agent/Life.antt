-- ===== src/Agent/Life.antt =====
-- The agents of every state that methods and registrations, one after the other, reach.
use asc_orchestrator_v.Base.{
  ℕ, ◌≡◌, refl, sym, ◌∙◌, subst, inl, inr, String, true, ◌==◌, str_eq→eq, none, some, Bool-cases,
}
use asc_orchestrator_v.Base.Dict.{Dict, lookup, insert, lookup-insert}
use asc_orchestrator_v.Pese.Types.{missing, readable, Envelope, Disk, Moment, Rules}
use asc_orchestrator_v.Pese.Update.{Owned}
use asc_orchestrator_v.Pese.Valid.{IsValid}
use asc_orchestrator_v.Pese.Append.{HashShape}
use asc_orchestrator_v.Agent.Types.{released, Agent, System}
use asc_orchestrator_v.Agent.Ledger.{with_agents, change_agent, lookup-change_agent}
use asc_orchestrator_v.Agent.Perform.{new_agent, perform, register}
use asc_orchestrator_v.Agent.Methods.{Method, call_of, IsMove, method-IsMove, IsConsistent, legal}
use asc_orchestrator_v.Agent.Performed.{IsPassed, perform-Performed}
use asc_orchestrator_v.Agent.Registered.{register-Registered}

-- Every agent that is found under a name.
abbrev pub EachAgent : (Agent → Type 0) → Dict Agent → Type 0
EachAgent P agents = (k : String) (a : Agent) → lookup k agents ≡ some a → P a

-- A released agent under a name.
abbrev pub IsReleased : String → Dict Agent → Type 0
IsReleased k agents = (a : Agent) × (lookup k agents ≡ some a) × (a.status ≡ released)

-- A change of one agent keeps what it keeps of that agent.
change-EachAgent :
    (P : Agent → Type 0) (id : String) (f : Agent → Agent) (agents : Dict Agent) (agent : Agent)
    → lookup id agents ≡ some agent
    → (P agent → P (f agent))
    → EachAgent P agents
    → EachAgent P (change_agent id f agents)
change-EachAgent P id f agents agent found keeps each k a h = elim (Bool-cases (id == k)) [
  | inr e ↦
      let old : lookup k agents ≡ some a =
        sym (lookup-change_agent id k f agents ∙ rw e refl) ∙ h in
      each k a old
  | inl e ↦
      let same = str_eq→eq id k e in
      let at_k : lookup k agents ≡ some agent =
        subst (λ j. lookup j agents ≡ some agent) same found in
      let new : some (f agent) ≡ some a =
        sym (lookup-change_agent id k f agents ∙ rw (e, at_k) refl) ∙ h in
      let is : f agent ≡ a = cc in subst P is (keeps (each k agent at_k))
]

insert-EachAgent :
    (P : Agent → Type 0) (id : String) (new : Agent) (agents : Dict Agent)
    → P new
    → EachAgent P agents
    → EachAgent P (insert id new agents)
insert-EachAgent P id new agents p each k a h = elim (Bool-cases (id == k)) [
  | inr e ↦
      let old : lookup k agents ≡ some a = sym (lookup-insert id k new agents ∙ rw e refl) ∙ h in
      each k a old
  | inl e ↦
      let is_new : some new ≡ some a = sym (lookup-insert id k new agents ∙ rw e refl) ∙ h in
      let is : new ≡ a = cc in subst P is p
]

-- No move leads away from the status of a released agent.
released_stays : (a b : Agent) → IsMove a b → a.status ≡ released → b.status ≡ released
released_stays a b move r = elim move.moved [
  | inl e ↦ e ∙ r
  | inr (inl l) ↦
      let never : legal released b.status ≡ true = subst (λ s. legal s b.status ≡ true) r l in cc
  | inr (inr early) ↦ early.1
]

change-IsReleased :
    (k id : String) (f : Agent → Agent) (agents : Dict Agent) (agent : Agent)
    → lookup id agents ≡ some agent
    → IsMove agent (f agent)
    → IsReleased k agents
    → IsReleased k (change_agent id f agents)
change-IsReleased k id f agents agent found move (a, h, r) = elim (Bool-cases (id == k)) [
  | inr e ↦ (a, lookup-change_agent id k f agents ∙ rw (e, h) refl, r)
  | inl e ↦
      let same = str_eq→eq id k e in
      let both : some agent ≡ some a =
        sym (subst (λ j. lookup j agents ≡ some agent) same found) ∙ h in
      let is : agent ≡ a = cc in
      (
        f a,
        lookup-change_agent id k f agents ∙ rw (e, h) refl,
        released_stays a (f a) (subst (λ b. IsMove b (f b)) is move) r,
      )
]

insert-IsReleased :
    (k id : String) (new : Agent) (agents : Dict Agent)
    → lookup id agents ≡ none
    → IsReleased k agents
    → IsReleased k (insert id new agents)
insert-IsReleased k id new agents absent (a, h, r) = elim (Bool-cases (id == k)) [
  | inr e ↦ (a, lookup-insert id k new agents ∙ rw (e, h) refl, r)
  | inl e ↦
      let clash : none ≡ some a =
        sym (subst (λ j. lookup j agents ≡ none) (str_eq→eq id k e) absent) ∙ h in
      cc
]

module _ {R X : Type 0} (rules : Rules (System R) X) where
  -- One call, by any process, that runs from its first load to its end.
  pub data Step (d e : Disk (System R) X) : Type 0 where
    managing :
        (t u : ℕ) (m : Moment) (method : Method) (own : Owned)
        → e ≡ (perform rules t u m (call_of method) d own).0
        → Step d e
    registering :
        (t u : ℕ) (m : Moment) (agent_id acr_ref actor : String) (own : Owned)
        → e ≡ (register rules t u m agent_id acr_ref actor d own).0
        → Step d e

  pub data Reached (d : Disk (System R) X) : Disk (System R) X → Type 0 where
    here : Reached d d
    after : {e f : Disk (System R) X} → Reached d e → Step e f → Reached d f

  -- A valid store that no writer holds, whose agents have a property that methods keep.
  pub record IsGood (P : Dict Agent → Type 0) (d : Disk (System R) X) : Type 0 where
    pub valid_is : IsValid (with_agents rules) d
    pub unlocked : d.lock ≡ missing
    pub agents_are : P valid_is.top.content.state.agents

  -- A property of the agents that a method's change and a registration keep.
  pub record IsKept (P : Dict Agent → Type 0) : Type 0 where
    pub by_method :
        (method : Method) (agents : Dict Agent) (agent : Agent)
        → IsPassed (call_of method) agents agent
        → P agents
        → P (change_agent (call_of method).agent_id (call_of method).change agents)
    pub by_register :
        (agent_id acr_ref : String) (agents : Dict Agent)
        → lookup agent_id agents ≡ none
        → P agents
        → P (insert agent_id (new_agent agent_id acr_ref) agents)

  -- Two valid stores with the same live.json have the same envelope on top.
  same_top :
      (d e : Disk (System R) X) (v : IsValid (with_agents rules) d)
      (w : IsValid (with_agents rules) e)
      → e.live ≡ d.live
      → v.top ≡ w.top
  same_top d e v w l =
      let same : readable v.top ≡ readable w.top = sym v.live_is ∙ (sym l ∙ w.live_is) in cc

  top_is :
      (e : Disk (System R) X) (w : IsValid (with_agents rules) e) (new : Envelope (System R))
      → e.live ≡ readable new
      → new ≡ w.top
  top_is e w new l = let same : readable new ≡ readable w.top = sym l ∙ w.live_is in cc

  Step-IsGood :
      (shape : HashShape (with_agents rules)) (P : Dict Agent → Type 0) (kept : IsKept P)
      (d e : Disk (System R) X)
      → IsGood P d
      → Step d e
      → IsGood P e
  Step-IsGood shape P kept d e g (managing t u m method own is) =
      let p = perform-Performed rules shape t u m (call_of method) d own g.valid_is g.unlocked in
      subst (IsGood P) (sym is) (record {
        valid_is = p.valid_is;
        unlocked = p.unlocked;
        agents_are = elim p.effect [
          | inl same ↦
              subst (λ top. P top.content.state.agents)
                (same_top d (perform rules t u m (call_of method) d own).0 g.valid_is p.valid_is
                  same.live_is)
                g.agents_are
          | inr ((agent, passed), more) ↦
              subst (λ top. P top.content.state.agents)
                (top_is (perform rules t u m (call_of method) d own).0 p.valid_is more.new
                  more.live_is)
                (subst P (sym more.agents_are) (
                  kept.by_method method g.valid_is.top.content.state.agents agent passed
                    g.agents_are))
        ];
      })
  Step-IsGood shape P kept d e g (registering t u m agent_id acr_ref actor own is) =
      let p =
        register-Registered rules shape t u m agent_id acr_ref actor d own g.valid_is g.unlocked in
      subst (IsGood P) (sym is) (record {
        valid_is = p.valid_is;
        unlocked = p.unlocked;
        agents_are = elim p.effect [
          | inl same ↦
              subst (λ top. P top.content.state.agents)
                (same_top d (register rules t u m agent_id acr_ref actor d own).0 g.valid_is
                  p.valid_is same.live_is)
                g.agents_are
          | inr (ok, absent, more) ↦
              subst (λ top. P top.content.state.agents)
                (top_is (register rules t u m agent_id acr_ref actor d own).0 p.valid_is more.new
                  more.live_is)
                (subst P (sym more.agents_are) (
                  kept.by_register agent_id acr_ref g.valid_is.top.content.state.agents absent
                    g.agents_are))
        ];
      })

  Reached-IsGood :
      (shape : HashShape (with_agents rules)) (P : Dict Agent → Type 0) (kept : IsKept P)
      (d e : Disk (System R) X)
      → IsGood P d
      → Reached d e
      → IsGood P e
  Reached-IsGood shape P kept d e g here = g
  Reached-IsGood shape P kept d f g (after {e} before step) =
      Step-IsGood shape P kept e f (Reached-IsGood shape P kept d e g before) step

  IsConsistent-kept : IsKept (EachAgent IsConsistent)
  IsConsistent-kept = record {
    by_method = λ method agents agent p each.
        change-EachAgent IsConsistent (call_of method).agent_id (call_of method).change agents agent
          p.found (method-IsMove method agent p.fits).consistent each;
    by_register = λ agent_id acr_ref agents absent each.
        insert-EachAgent IsConsistent agent_id (new_agent agent_id acr_ref) agents (refl, refl)
          each;
  }

  IsReleased-kept : (k : String) → IsKept (IsReleased k)
  IsReleased-kept k = record {
    by_method = λ method agents agent p r.
        change-IsReleased k (call_of method).agent_id (call_of method).change agents agent p.found
          (method-IsMove method agent p.fits) r;
    by_register = λ agent_id acr_ref agents absent r.
        insert-IsReleased k agent_id (new_agent agent_id acr_ref) agents absent r;
  }

  -- Where hashes have the form that is asked for: whatever methods and registrations run one after
  -- the other from a valid store that no writer holds, whose agents have a mission and an assignment
  -- while they are busy and neither before they work, while they are ready or after they are
  -- released, that stays so.
  pub Reached-IsConsistent :
      (shape : HashShape (with_agents rules)) (d e : Disk (System R) X)
      → IsGood (EachAgent IsConsistent) d
      → Reached d e
      → IsGood (EachAgent IsConsistent) e
  Reached-IsConsistent shape d e g r =
      Reached-IsGood shape (EachAgent IsConsistent) IsConsistent-kept d e g r

  -- Where hashes have the form that is asked for: an agent that is released in a valid store that
  -- no writer holds stays released, whatever methods and registrations run one after the other.
  pub Reached-IsReleased :
      (shape : HashShape (with_agents rules)) (k : String) (d e : Disk (System R) X)
      → IsGood (IsReleased k) d
      → Reached d e
      → IsGood (IsReleased k) e
  Reached-IsReleased shape k d e g r =
      Reached-IsGood shape (IsReleased k) (IsReleased-kept k) d e g r
