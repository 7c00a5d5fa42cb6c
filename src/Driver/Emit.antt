-- ===== src/Driver/Emit.antt =====
-- src/asc/driver.py: `_emit`.
use asc_orchestrator_v.Base.{String, ◌≡◌, refl, Option}
use asc_orchestrator_v.Base.Dict.{Dict}
use asc_orchestrator_v.State.{PayloadValue}
use asc_orchestrator_v.State.Events.{record_event}
use asc_orchestrator_v.Events.{EventType, Event, to_dict}
use asc_orchestrator_v.Events as Emitter
use asc_orchestrator_v.Driver.{Config}
use asc_orchestrator_v.Driver.Effects.{Env, Drive}

module _ {W : Type 0} (cfg : Config) (env : Env W) where
  -- The event goes to the listeners, and then to the table of events.
  unfoldable pub emit : EventType → Option String → Dict PayloadValue → String → Drive W → Drive W
  emit event_type task_id payload message d =
      let (now, w₁) = env.clock d.world in
      let event : Event = record {
        event_type = event_type;
        mission_id = cfg.mission_id;
        task_id = task_id;
        timestamp = now;
        payload = payload;
        message = message;
      } in
      let (new_id, w₂) = env.new_id (Emitter.emit env.call cfg.listeners event w₁) in
      let (later, w₃) = env.clock w₂ in
      record d { db = record_event new_id later (to_dict event) d.db; world = w₃ }

  pub tasks-emit :
      (event_type : EventType) (task_id : Option String) (payload : Dict PayloadValue)
      (message : String) (d : Drive W)
      → (emit event_type task_id payload message d).db.tasks ≡ d.db.tasks
  unfolding emit record_event
  tasks-emit event_type task_id payload message d = refl
