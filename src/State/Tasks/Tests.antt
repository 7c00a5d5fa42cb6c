-- ===== src/State/Tasks/Tests.antt =====
-- The theorems on src/asc/state.py at a small database.
use Prim.Native.Nat.{min}
use asc_orchestrator_v.Base.{
  ◌≤◌, String, ◌≡◌, refl, ◌⊎◌, true, none, some, [], All, Member, length, false→str_ne, select,
  count_if, Bool,
}
use asc_orchestrator_v.Models.{Task, TaskStatus}
use asc_orchestrator_v.Models.ExitCode.{pos}
use asc_orchestrator_v.State.{TaskRow, EventRow, fetch_one}
use asc_orchestrator_v.State.Tasks.{save_task, get_task}
use asc_orchestrator_v.State.Tasks.Status.{
  StatusTarget, of_id, StatusFields, no_fields, increment_attempt_count,
}
use asc_orchestrator_v.State.Tasks.Save.{
  row_of, SameProgress, IsDefinedBy, save_task-keeps_progress, get_task-save_task_new,
  get_task-save_task_unscoped,
}
use asc_orchestrator_v.State.Tasks.Keys.{HasUniqueKeys, increment_attempt_count-HasUniqueKeys}
use asc_orchestrator_v.State.Missions.{save_mission, get_mission}
use asc_orchestrator_v.State.Missions.Resume.{save_mission-keeps_progress}
use asc_orchestrator_v.State.Events.{get_events, wanted}
use asc_orchestrator_v.State.Events.Sort.{IsBefore, IsChronological}
use asc_orchestrator_v.State.Events.Newest.{get_events_newest}
use asc_orchestrator_v.Fixtures.{task_of, task_a, task_b, row_a, spec_m, mission_m, db_a}

found_a : row_of "m" "a" db_a ≡ some row_a
unfolding fetch_one
found_a = refl

absent_b : row_of "m" "b" db_a ≡ none
unfolding fetch_one
absent_b = refl

keys_a : HasUniqueKeys db_a.tasks
unfolding fetch_one
keys_a = (refl, tt)

abbrev m : String
m = "m"

abbrev n : String
n = "n"

apart : ¬ ((m ≡ n) × (row_a.id ≡ row_a.id))
apart (e, _) = false→str_ne "m" "n" refl e

save_task-keeps_progress_example :
    (s : TaskRow) × (row_of "m" "a" (save_task 5 task_a "m" db_a) ≡ some s)
    × SameProgress row_a s
    × IsDefinedBy task_a s
save_task-keeps_progress_example = save_task-keeps_progress 5 task_a "m" db_a row_a found_a

get_task-save_task_new_example : get_task "b" (some "m") (save_task 5 task_b "m" db_a) ≡ some task_b
get_task-save_task_new_example =
    get_task-save_task_new 5 task_b "m" db_a refl absent_b refl (λ e. cc)

abbrev nothing_to_commit : Task
nothing_to_commit = task_of "b" TaskStatus.pending [] (some [])

get_task-save_task_unscoped_example :
    (u : Task) × (get_task "b" (some "m") (save_task 5 nothing_to_commit "m" db_a) ≡ some u)
    × (u.commit_paths ≡ none)
get_task-save_task_unscoped_example =
    get_task-save_task_unscoped 5 nothing_to_commit "m" db_a refl absent_b refl refl

abbrev target : StatusTarget
target = of_id "a" (some TaskStatus.failed)

abbrev fields : StatusFields
fields = record no_fields { exit_code = some (pos 3) }

increment_attempt_count-HasUniqueKeys_example :
    HasUniqueKeys (increment_attempt_count "a" none db_a).1.tasks
increment_attempt_count-HasUniqueKeys_example =
    increment_attempt_count-HasUniqueKeys "a" none db_a keys_a

save_mission-keeps_progress_example :
    (s : TaskRow) × (row_of "m" "a" (save_mission 5 (λ t. 6) spec_m db_a) ≡ some s)
    × SameProgress row_a s
save_mission-keeps_progress_example =
    save_mission-keeps_progress 5 (λ t. 6) spec_m "m" "a" db_a row_a found_a

known_m : get_mission "m" db_a ≡ some mission_m
unfolding get_mission fetch_one
known_m = refl

get_events_newest_example :
    let events = get_events (some "m") none 2 db_a in
    let asked = select (wanted (some "m") none) db_a.events in
    (length events ≡ min 2 (length asked))
    × IsChronological events
    × ((p : EventRow → Bool) → count_if p events ≤ count_if p asked)
    × ((e : EventRow)
        → Member e db_a.events
        → wanted (some "m") none e ≡ true
        → Member e events ⊎ All (IsBefore e) events)
get_events_newest_example = get_events_newest (some "m") none 2 db_a
