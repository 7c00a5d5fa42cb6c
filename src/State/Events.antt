-- ===== src/State/Events.antt =====
-- src/asc/state.py: `record_event` and `get_events`.
pub mod Sort
pub mod Newest
use asc_orchestrator_v.Base.{
  ℕ, String, Bool, true, false, ◌&&◌, ◌==◌, Option, none, some, List, [], ◌∷◌, ◌++◌, select,
  if◌then◌else◌, ltb,
}
use asc_orchestrator_v.Base.Dict.{Dict}
use asc_orchestrator_v.Base.Truthy.{truthy, or_default}
use asc_orchestrator_v.State.{Db, EventRow, PayloadValue}
use asc_orchestrator_v.State.Missions.{limit_to}

-- The dictionary that `record_event` is given; a key that it lacks is `none`.
pub record EventData : Type 0 where
  pub id : Option String
  pub mission_id : Option String
  pub task_id : Option String
  pub event_type : Option String
  pub payload : Option (Dict PayloadValue)
  pub timestamp : Option ℕ

abbrev or_else {ℓ} : {A : Type ℓ} → Option A → A → A
or_else none d = d
or_else (some a) d = a

-- `new_id` is the text that is built from a fresh uuid, and `now` is the clock's reading.
unfoldable pub record_event : String → ℕ → EventData → Db → Db
record_event new_id now e db = record db {
  events =
      db.events
      ++ record {
        id = or_default e.id new_id;
        mission_id = e.mission_id;
        task_id = e.task_id;
        event_type = or_else e.event_type "UNKNOWN";
        payload = or_else e.payload [];
        timestamp = or_else e.timestamp now;
      }
        ∷ [];
}

-- `column = ?`, which no NULL satisfies
abbrev pub same_text : Option String → Option String → Bool
same_text none b = false
same_text (some a) none = false
same_text (some a) (some b) = a == b

-- The WHERE clause: each of the two conditions is there if its argument is not empty.
unfoldable pub wanted : Option String → Option String → EventRow → Bool
wanted mission_id task_id e =
    (if truthy mission_id then same_text e.mission_id mission_id else true)
    && (if truthy task_id then same_text e.task_id task_id else true)

-- `ORDER BY timestamp DESC` and `ASC`; of rows with equal times the order is that of the table.
unfoldable pub insert_desc : EventRow → List EventRow → List EventRow
insert_desc e [] = e ∷ []
insert_desc e (f ∷ fs) = if ltb e.timestamp f.timestamp then f ∷ insert_desc e fs else e ∷ f ∷ fs

unfoldable pub sort_desc : List EventRow → List EventRow
sort_desc [] = []
sort_desc (e ∷ es) = insert_desc e (sort_desc es)

unfoldable pub insert_asc : EventRow → List EventRow → List EventRow
insert_asc e [] = e ∷ []
insert_asc e (f ∷ fs) = if ltb f.timestamp e.timestamp then f ∷ insert_asc e fs else e ∷ f ∷ fs

unfoldable pub sort_asc : List EventRow → List EventRow
sort_asc [] = []
sort_asc (e ∷ es) = insert_asc e (sort_asc es)

unfoldable pub get_events : Option String → Option String → ℕ → Db → List EventRow
get_events mission_id task_id limit db =
    sort_asc (limit_to limit (sort_desc (select (wanted mission_id task_id) db.events)))
