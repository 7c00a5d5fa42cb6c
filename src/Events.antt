-- ===== src/Events.antt =====
-- src/asc/events.py: the domain events, and the emitter that calls the listeners. A listener is
-- known by a number; what a call does, and whether it raises, is the parameter `call`.
pub mod Dispatch
mod Tests
use asc_orchestrator_v.Base.{
  ℕ, String, Bool, true, false, Option, none, some, List, [], ◌∷◌, ◌++◌, nat_eq, if◌then◌else◌,
}
use asc_orchestrator_v.Base.Dict.{Dict}
use asc_orchestrator_v.State.{PayloadValue}
use asc_orchestrator_v.State.Events.{EventData}

pub data EventType : Type 0 where
  mission_started mission_completed mission_blocked : EventType
  task_ready task_started task_retry task_failed task_completed : EventType
  executor_started executor_heartbeat executor_completed executor_failed : EventType
  verification_started verification_passed verification_failed : EventType
  git_changeset_detected git_commit_started git_commit_created : EventType
  lock_acquired lock_released lock_conflict : EventType

abbrev pub value : EventType → String
value mission_started = "MISSION_STARTED"
value mission_completed = "MISSION_COMPLETED"
value mission_blocked = "MISSION_BLOCKED"
value task_ready = "TASK_READY"
value task_started = "TASK_STARTED"
value task_retry = "TASK_RETRY"
value task_failed = "TASK_FAILED"
value task_completed = "TASK_COMPLETED"
value executor_started = "EXECUTOR_STARTED"
value executor_heartbeat = "EXECUTOR_HEARTBEAT"
value executor_completed = "EXECUTOR_COMPLETED"
value executor_failed = "EXECUTOR_FAILED"
value verification_started = "VERIFICATION_STARTED"
value verification_passed = "VERIFICATION_PASSED"
value verification_failed = "VERIFICATION_FAILED"
value git_changeset_detected = "GIT_CHANGESET_DETECTED"
value git_commit_started = "GIT_COMMIT_STARTED"
value git_commit_created = "GIT_COMMIT_CREATED"
value lock_acquired = "LOCK_ACQUIRED"
value lock_released = "LOCK_RELEASED"
value lock_conflict = "LOCK_CONFLICT"

pub record Event : Type 0 where
  pub event_type : EventType
  pub mission_id : Option String
  pub task_id : Option String
  pub timestamp : ℕ
  pub payload : Dict PayloadValue
  pub message : String

-- `Event.to_dict`, as far as `record_event` reads it: the message has no column.
abbrev pub to_dict : Event → EventData
to_dict e = record {
  id = none;
  mission_id = e.mission_id;
  task_id = e.task_id;
  event_type = some (value e.event_type);
  payload = some e.payload;
  timestamp = some e.timestamp;
}

-- `listener in self._listeners`
abbrev pub listens : ℕ → List ℕ → Bool
listens l [] = false
listens l (m ∷ ms) = if nat_eq m l then true else listens l ms

unfoldable pub subscribe : ℕ → List ℕ → List ℕ
subscribe l listeners = if listens l listeners then listeners else listeners ++ l ∷ []

-- `list.remove` takes the first.
unfoldable pub remove : ℕ → List ℕ → List ℕ
remove l [] = []
remove l (m ∷ ms) = if nat_eq m l then ms else m ∷ remove l ms

unfoldable pub unsubscribe : ℕ → List ℕ → List ℕ
unfolding remove
unsubscribe l listeners = if listens l listeners then remove l listeners else listeners

module _ {W : Type 0} (call : ℕ → Event → W → Bool × W) where
  -- The first part of a call's result is whether the listener raised; `emit` passes over it.
  unfoldable pub emit : List ℕ → Event → W → W
  emit [] e w = w
  emit (l ∷ ls) e w = let (raised, w') = call l e w in emit ls e w'
