-- ===== src/Agent/Methods.antt =====
-- What each method makes of an agent that its checks let pass: the moves between statuses, and
-- the mission and the assignment that a status goes with.
use asc_orchestrator_v.Base.{
  ℕ, zero, suc, ◌≡◌, refl, sym, ◌∙◌, ap, subst, ◌⊎◌, inl, inr, String, Bool, true, false, ◌||◌,
  Option, none, some, List, [], ◌∷◌, all_of, arith, &&-left, &&-right, if◌then◌else◌, Bool-cases,
}
use asc_orchestrator_v.Base.Dict.{Dict}
use asc_orchestrator_v.Agent.Types.{
  AgentStatus, initializing, registered, ready, busy, blocked, failed, quarantined, replaced,
  released, DepStatus, Agent, AgcError, invalid_transition, same_status, status_number,
}
use asc_orchestrator_v.Agent.Calls.{
  Call, expect_status, activate, set_dependency, make_ready, claim, complete, block, unblock, fail,
  quarantine, replace, release, heartbeat, update_checkpoint,
}

-- The methods that manage an agent, with their arguments.
pub data Method : Type 0 where
  activating completing unblocking making_ready releasing : String → String → Method
  replacing blocking : String → String → Method
  claiming : String → String → String → String → Method
  failing quarantining : String → String → String → String → Method
  setting :
      String
      → DepStatus
      → String
      → Option String
      → Option (Dict String)
      → Option (Dict String)
      → String
      → Method
  beating : String → String → Option String → String → Method
  checkpointing : String → String → String → Method

abbrev pub call_of : Method → Call
call_of (activating id actor) = activate id actor
call_of (completing id actor) = complete id actor
call_of (unblocking id actor) = unblock id actor
call_of (making_ready id actor) = make_ready id actor
call_of (releasing id actor) = release id actor
call_of (replacing id actor) = replace id actor
call_of (blocking id actor) = block id actor
call_of (claiming id mission assignment actor) = claim id mission assignment actor
call_of (failing id actor reason now) = fail id actor reason now
call_of (quarantining id actor reason now) = quarantine id actor reason now
call_of (setting id status actor at tools environment now) =
    set_dependency id status actor at tools environment now
call_of (beating id actor at now) = heartbeat id actor at now
call_of (checkpointing id checkpoint actor) = update_checkpoint id checkpoint actor

-- docs/AGC_v1.0.md, section 5, "Legal transitions": the statuses that follow a status.
abbrev pub next_statuses : AgentStatus → List AgentStatus
next_statuses initializing = registered ∷ []
next_statuses registered = ready ∷ []
next_statuses ready = busy ∷ blocked ∷ failed ∷ quarantined ∷ released ∷ []
next_statuses busy = ready ∷ blocked ∷ failed ∷ quarantined ∷ released ∷ []
next_statuses blocked = ready ∷ failed ∷ quarantined ∷ released ∷ []
next_statuses failed = quarantined ∷ replaced ∷ released ∷ []
next_statuses quarantined = replaced ∷ released ∷ []
next_statuses replaced = released ∷ []
next_statuses released = []

abbrev pub is_among : AgentStatus → List AgentStatus → Bool
is_among s [] = false
is_among s (t ∷ ts) = same_status s t || is_among s ts

abbrev pub legal : AgentStatus → AgentStatus → Bool
legal before after = is_among after (next_statuses before)

-- The mission and the assignment that go with a status: none before the agent works and after it
-- is released, both while it is busy.
abbrev pub Fits : AgentStatus → Option String → Option String → Type 0
Fits initializing m a = (m ≡ none) × (a ≡ none)
Fits registered m a = (m ≡ none) × (a ≡ none)
Fits ready m a = (m ≡ none) × (a ≡ none)
Fits busy m a = ((i : String) × (m ≡ some i)) × ((j : String) × (a ≡ some j))
Fits blocked m a = Unit
Fits failed m a = Unit
Fits quarantined m a = Unit
Fits replaced m a = Unit
Fits released m a = (m ≡ none) × (a ≡ none)

abbrev pub IsConsistent : Agent → Type 0
IsConsistent a = Fits a.status a.mission_id a.assignment_id

abbrev status_of : ℕ → AgentStatus
status_of zero = initializing
status_of (suc zero) = registered
status_of (suc (suc zero)) = ready
status_of (suc (suc (suc zero))) = busy
status_of (suc (suc (suc (suc zero)))) = blocked
status_of (suc (suc (suc (suc (suc zero))))) = failed
status_of (suc (suc (suc (suc (suc (suc zero)))))) = quarantined
status_of (suc (suc (suc (suc (suc (suc (suc zero))))))) = replaced
status_of (suc (suc (suc (suc (suc (suc (suc (suc n)))))))) = released

status_of-status_number : (s : AgentStatus) → status_of (status_number s) ≡ s
status_of-status_number initializing = refl
status_of-status_number registered = refl
status_of-status_number ready = refl
status_of-status_number busy = refl
status_of-status_number blocked = refl
status_of-status_number failed = refl
status_of-status_number quarantined = refl
status_of-status_number replaced = refl
status_of-status_number released = refl

pub same_status→eq : (s t : AgentStatus) → same_status s t ≡ true → s ≡ t
same_status→eq s t h =
    let n : status_number s ≡ status_number t = ground arith in
    sym (status_of-status_number s) ∙ (ap status_of n ∙ status_of-status_number t)

expected_one : (s st : AgentStatus) → expect_status (s ∷ []) st ≡ none → st ≡ s
expected_one s st h = elim (Bool-cases (same_status st s)) [
  | inl e ↦ same_status→eq st s e
  | inr e ↦ let clash : some invalid_transition ≡ none = rw e at h in cc
]

-- From a status that is expected, a move that is legal from each of those.
from_expected :
    (ss : List AgentStatus) (st after : AgentStatus)
    → expect_status ss st ≡ none
    → all_of (λ s. legal s after) ss ≡ true
    → legal st after ≡ true
from_expected [] st after h l = cc
from_expected (s ∷ ss) st after h l = elim (Bool-cases (same_status st s)) [
  | inl e ↦
      subst (λ v. legal v after ≡ true) (sym (same_status→eq st s e))
        (&&-left (legal s after) (all_of (λ v. legal v after) ss) l)
  | inr e ↦
      from_expected ss st after (rw e at h)
        (&&-right (legal s after) (all_of (λ v. legal v after) ss) l)
]

-- The two moves that the code makes beyond the table: a release before the agent is ready.
abbrev pub EarlyRelease : AgentStatus → AgentStatus → Type 0
EarlyRelease before after = ((before ≡ initializing) ⊎ (before ≡ registered)) × (after ≡ released)

abbrev pub Moves : AgentStatus → AgentStatus → Type 0
Moves before after = (legal before after ≡ true) ⊎ EarlyRelease before after

-- What a method that is let pass makes of an agent.
pub record IsMove (before after : Agent) : Type 0 where
  pub same_agent : after.agent_id ≡ before.agent_id
  pub moved : (after.status ≡ before.status) ⊎ Moves before.status after.status
  pub consistent : IsConsistent before → IsConsistent after

not_released :
    (st : AgentStatus)
    → (if same_status st released then some invalid_transition else none) ≡ none
    → Moves st released
not_released initializing h = inr (inl refl, refl)
not_released registered h = inr (inr refl, refl)
not_released ready h = inl refl
not_released busy h = inl refl
not_released blocked h = inl refl
not_released failed h = inl refl
not_released quarantined h = inl refl
not_released replaced h = inl refl
not_released released h = cc

registered_first :
    (st : AgentStatus) (b : Option AgcError)
    → (if same_status st registered then b else some invalid_transition) ≡ none
    → st ≡ registered
registered_first st b h = elim (Bool-cases (same_status st registered)) [
  | inl e ↦ same_status→eq st registered e
  | inr e ↦ let clash : some invalid_transition ≡ none = rw e at h in cc
]

-- A method whose checks let an agent pass keeps its name, moves its status along the table of the
-- legal transitions or by an early release, or not at all, and keeps the mission and the assignment
-- in step with the status.
pub method-IsMove :
    (method : Method) (a : Agent)
    → (call_of method).check a ≡ none
    → IsMove a ((call_of method).change a)
unfolding activate complete unblock make_ready release replace block claim fail quarantine
    set_dependency heartbeat update_checkpoint
method-IsMove (activating id actor) a h = record {
  same_agent = refl;
  moved = inr (inl (from_expected (initializing ∷ []) a.status registered h refl));
  consistent = λ c.
      subst (λ s. Fits s a.mission_id a.assignment_id) (expected_one initializing a.status h) c;
}
method-IsMove (completing id actor) a h = record {
  same_agent = refl;
  moved = inr (inl (from_expected (busy ∷ []) a.status ready h refl));
  consistent = λ c. (refl, refl);
}
method-IsMove (unblocking id actor) a h = record {
  same_agent = refl;
  moved = inr (inl (from_expected (blocked ∷ []) a.status ready h refl));
  consistent = λ c. (refl, refl);
}
method-IsMove (making_ready id actor) a h =
    let first = registered_first a.status _ h in
    record {
      same_agent = refl;
      moved = inr (inl (subst (λ s. legal s ready ≡ true) (sym first) refl));
      consistent = λ c. subst (λ s. Fits s a.mission_id a.assignment_id) first c;
    }
method-IsMove (releasing id actor) a h = record {
  same_agent = refl;
  moved = inr (not_released a.status h);
  consistent = λ c. (refl, refl);
}
method-IsMove (replacing id actor) a h = record {
  same_agent = refl;
  moved = inr (inl (from_expected (quarantined ∷ failed ∷ []) a.status replaced h refl));
  consistent = λ c. tt;
}
method-IsMove (blocking id actor) a h = record {
  same_agent = refl;
  moved = inr (inl (from_expected (ready ∷ busy ∷ []) a.status blocked h refl));
  consistent = λ c. tt;
}
method-IsMove (claiming id mission assignment actor) a h = record {
  same_agent = refl;
  moved = inr (inl (from_expected (ready ∷ []) a.status busy h refl));
  consistent = λ c. ((mission, refl), (assignment, refl));
}
method-IsMove (failing id actor reason now) a h = record {
  same_agent = refl;
  moved = inr (inl (from_expected (ready ∷ busy ∷ blocked ∷ []) a.status failed h refl));
  consistent = λ c. tt;
}
method-IsMove (quarantining id actor reason now) a h = record {
  same_agent = refl;
  moved =
      inr (inl (from_expected (ready ∷ busy ∷ blocked ∷ failed ∷ []) a.status quarantined h refl));
  consistent = λ c. tt;
}
method-IsMove (setting id status actor at tools environment now) a h = record {
  same_agent = refl;
  moved = inl refl;
  consistent = λ c. c;
}
method-IsMove (beating id actor at now) a h = record {
  same_agent = refl;
  moved = inl refl;
  consistent = λ c. c;
}
method-IsMove (checkpointing id checkpoint actor) a h = record {
  same_agent = refl;
  moved = inl refl;
  consistent = λ c. c;
}
