-- ===== src/Agent/Table.antt =====
-- The methods of src/asc_orchestrator/agent.py against the table "Commands and transitions" of
-- docs/AGC_v1.0.md, section 5.
use asc_orchestrator_v.Base.{
  ◌≡◌, refl, inl, inr, ◌↔◌, String, Bool, true, false, ◌||◌, Option, none, some, List, [], ◌∷◌,
  if◌then◌else◌, Bool-cases,
}
use asc_orchestrator_v.Agent.Types.{
  AgentStatus, initializing, registered, ready, busy, blocked, failed, quarantined, replaced,
  released, DepStatus, verified, missing, mismatch, unknown, Interruption, Agent,
  invalid_transition, dependency_unverified, same_status,
}
use asc_orchestrator_v.Agent.Calls.{
  expect_status, is_verified, activate, set_dependency, make_ready, claim, complete, block, unblock,
  fail, quarantine, replace, release, heartbeat, update_checkpoint,
}
use asc_orchestrator_v.Agent.Methods.{
  Method, activating, completing, unblocking, making_ready, releasing, replacing, blocking,
  claiming, failing, quarantining, setting, beating, checkpointing, call_of, is_among, IsMove,
  method-IsMove,
}

-- "From Status"; none where it is any.
abbrev pub from_statuses : Method → Option (List AgentStatus)
from_statuses (activating id actor) = some (initializing ∷ [])
from_statuses (making_ready id actor) = some (registered ∷ [])
from_statuses (claiming id mission assignment actor) = some (ready ∷ [])
from_statuses (completing id actor) = some (busy ∷ [])
from_statuses (blocking id actor) = some (ready ∷ busy ∷ [])
from_statuses (unblocking id actor) = some (blocked ∷ [])
from_statuses (failing id actor reason now) = some (ready ∷ busy ∷ blocked ∷ [])
from_statuses (quarantining id actor reason now) = some (ready ∷ busy ∷ blocked ∷ failed ∷ [])
from_statuses (replacing id actor) = some (quarantined ∷ failed ∷ [])
from_statuses (releasing id actor) =
    some (initializing ∷ registered ∷ ready ∷ busy ∷ blocked ∷ failed ∷ quarantined ∷ replaced ∷ [])
from_statuses (setting id status actor at tools environment now) = none
from_statuses (beating id actor at now) = none
from_statuses (checkpointing id checkpoint actor) = none

-- "To Status".
abbrev pub to_status : Method → AgentStatus → AgentStatus
to_status (activating id actor) s = registered
to_status (making_ready id actor) s = ready
to_status (claiming id mission assignment actor) s = busy
to_status (completing id actor) s = ready
to_status (blocking id actor) s = blocked
to_status (unblocking id actor) s = ready
to_status (failing id actor reason now) s = failed
to_status (quarantining id actor reason now) s = quarantined
to_status (replacing id actor) s = replaced
to_status (releasing id actor) s = released
to_status (setting id status actor at tools environment now) s = s
to_status (beating id actor at now) s = s
to_status (checkpointing id checkpoint actor) s = s

-- "Notes": what becomes of the mission and of the assignment.
abbrev pub work_after : Method → Option String → Option String → Option String × Option String
work_after (activating id actor) m a = (m, a)
work_after (making_ready id actor) m a = (m, a)
work_after (claiming id mission assignment actor) m a = (some mission, some assignment)
work_after (completing id actor) m a = (none, none)
work_after (blocking id actor) m a = (m, a)
work_after (unblocking id actor) m a = (none, none)
work_after (failing id actor reason now) m a = (m, a)
work_after (quarantining id actor reason now) m a = (m, a)
work_after (replacing id actor) m a = (m, a)
work_after (releasing id actor) m a = (none, none)
work_after (setting id status actor at tools environment now) m a = (m, a)
work_after (beating id actor at now) m a = (m, a)
work_after (checkpointing id checkpoint actor) m a = (m, a)

-- "Notes": only a failure and a quarantine record an interruption.
abbrev pub interruption_after : Method → Option Interruption → Option Interruption
interruption_after (failing id actor reason now) i =
    some (record { reason = reason; occurred_at = now })
interruption_after (quarantining id actor reason now) i =
    some (record { reason = reason; occurred_at = now })
interruption_after other i = i

abbrev IsFrom : Option (List AgentStatus) → AgentStatus → Type 0
IsFrom none s = Unit
IsFrom (some ss) s = is_among s ss ≡ true

-- "Requires dependency status VERIFIED".
abbrev Needs : Method → Agent → Type 0
Needs (making_ready id actor) a = a.dependency.status ≡ verified
Needs other a = Unit

abbrev pub MayStart : Method → Agent → Type 0
MayStart method a = IsFrom (from_statuses method) a.status × Needs method a

-- What the table says of an agent before and after a method.
pub record Follows (method : Method) (before after : Agent) : Type 0 where
  pub asked : (call_of method).target before.status ≡ to_status method before.status
  pub status_is : after.status ≡ to_status method before.status
  pub work_is :
      (after.mission_id, after.assignment_id)
      ≡ work_after method before.mission_id before.assignment_id
  pub interruption_is : after.interruption ≡ interruption_after method before.interruption

abbrev Among : AgentStatus → List AgentStatus → Type 0
Among st ss = (is_among st ss ≡ true) × Unit

expect_status_iff :
    (ss : List AgentStatus) (st : AgentStatus) → (expect_status ss st ≡ none) ↔ Among st ss
expect_status_iff [] st = (λ h. cc, λ (h, u). cc)
expect_status_iff (s ∷ ss) st = elim (Bool-cases (same_status st s)) [
  | inl e ↦ rw e (λ h. (refl, tt), λ h. refl)
  | inr e ↦ rw e (expect_status_iff ss st)
]

verified_iff :
    (is_there : Bool) (d : DepStatus)
    → ((if is_there
          then (if is_verified d then none else some dependency_unverified)
          else some invalid_transition)
        ≡ none)
      ↔ ((is_there || false ≡ true) × (d ≡ verified))
verified_iff false d = (λ h. cc, λ (h, e). cc)
verified_iff true verified = (λ h. (refl, refl), λ h. refl)
verified_iff true missing = (λ h. cc, λ (h, e). cc)
verified_iff true mismatch = (λ h. cc, λ (h, e). cc)
verified_iff true unknown = (λ h. cc, λ (h, e). cc)

not_released_iff :
    (st : AgentStatus)
    → ((if same_status st released then some invalid_transition else none) ≡ none)
      ↔ Among st (
          initializing ∷ registered ∷ ready ∷ busy ∷ blocked ∷ failed ∷ quarantined ∷ replaced ∷ [])
not_released_iff initializing = (λ h. (refl, tt), λ h. refl)
not_released_iff registered = (λ h. (refl, tt), λ h. refl)
not_released_iff ready = (λ h. (refl, tt), λ h. refl)
not_released_iff busy = (λ h. (refl, tt), λ h. refl)
not_released_iff blocked = (λ h. (refl, tt), λ h. refl)
not_released_iff failed = (λ h. (refl, tt), λ h. refl)
not_released_iff quarantined = (λ h. (refl, tt), λ h. refl)
not_released_iff replaced = (λ h. (refl, tt), λ h. refl)
not_released_iff released = (λ h. cc, λ (h, u). cc)

-- The checks of a method let an agent pass exactly when its status is one that the table of the
-- commands names for the method and, for the method that makes it ready, its dependencies are
-- verified.
pub check_iff :
    (method : Method) (a : Agent) → ((call_of method).check a ≡ none) ↔ MayStart method a
unfolding activate complete unblock make_ready release replace block claim fail quarantine
    set_dependency heartbeat update_checkpoint
check_iff (activating id actor) a = expect_status_iff (initializing ∷ []) a.status
check_iff (making_ready id actor) a =
    verified_iff (same_status a.status registered) a.dependency.status
check_iff (claiming id mission assignment actor) a = expect_status_iff (ready ∷ []) a.status
check_iff (completing id actor) a = expect_status_iff (busy ∷ []) a.status
check_iff (blocking id actor) a = expect_status_iff (ready ∷ busy ∷ []) a.status
check_iff (unblocking id actor) a = expect_status_iff (blocked ∷ []) a.status
check_iff (failing id actor reason now) a = expect_status_iff (ready ∷ busy ∷ blocked ∷ []) a.status
check_iff (quarantining id actor reason now) a =
    expect_status_iff (ready ∷ busy ∷ blocked ∷ failed ∷ []) a.status
check_iff (replacing id actor) a = expect_status_iff (quarantined ∷ failed ∷ []) a.status
check_iff (releasing id actor) a = not_released_iff a.status
check_iff (setting id status actor at tools environment now) a = (λ h. (tt, tt), λ h. refl)
check_iff (beating id actor at now) a = (λ h. (tt, tt), λ h. refl)
check_iff (checkpointing id checkpoint actor) a = (λ h. (tt, tt), λ h. refl)

change-Follows : (method : Method) (a : Agent) → Follows method a ((call_of method).change a)
unfolding activate complete unblock make_ready release replace block claim fail quarantine
    set_dependency heartbeat update_checkpoint
change-Follows (activating id actor) a = record {
  asked = refl;
  status_is = refl;
  work_is = refl;
  interruption_is = refl;
}
change-Follows (making_ready id actor) a = record {
  asked = refl;
  status_is = refl;
  work_is = refl;
  interruption_is = refl;
}
change-Follows (claiming id mission assignment actor) a = record {
  asked = refl;
  status_is = refl;
  work_is = refl;
  interruption_is = refl;
}
change-Follows (completing id actor) a = record {
  asked = refl;
  status_is = refl;
  work_is = refl;
  interruption_is = refl;
}
change-Follows (blocking id actor) a = record {
  asked = refl;
  status_is = refl;
  work_is = refl;
  interruption_is = refl;
}
change-Follows (unblocking id actor) a = record {
  asked = refl;
  status_is = refl;
  work_is = refl;
  interruption_is = refl;
}
change-Follows (failing id actor reason now) a = record {
  asked = refl;
  status_is = refl;
  work_is = refl;
  interruption_is = refl;
}
change-Follows (quarantining id actor reason now) a = record {
  asked = refl;
  status_is = refl;
  work_is = refl;
  interruption_is = refl;
}
change-Follows (replacing id actor) a = record {
  asked = refl;
  status_is = refl;
  work_is = refl;
  interruption_is = refl;
}
change-Follows (releasing id actor) a = record {
  asked = refl;
  status_is = refl;
  work_is = refl;
  interruption_is = refl;
}
change-Follows (setting id status actor at tools environment now) a = record {
  asked = refl;
  status_is = refl;
  work_is = refl;
  interruption_is = refl;
}
change-Follows (beating id actor at now) a = record {
  asked = refl;
  status_is = refl;
  work_is = refl;
  interruption_is = refl;
}
change-Follows (checkpointing id checkpoint actor) a = record {
  asked = refl;
  status_is = refl;
  work_is = refl;
  interruption_is = refl;
}

-- A method whose checks let an agent pass asks for, and gives it, the status that the table of the
-- commands names for the method, and sets, clears or keeps the mission, the assignment and the
-- interruption as the table says. The agent keeps its name, its mission and assignment stay in step
-- with its status, and its move is one of the table of the legal transitions, a release of an agent
-- that is INITIALIZING or REGISTERED, or none.
pub method-Follows :
    (method : Method) (a : Agent)
    → (call_of method).check a ≡ none
    → Follows method a ((call_of method).change a) × IsMove a ((call_of method).change a)
method-Follows method a h = (change-Follows method a, method-IsMove method a h)
