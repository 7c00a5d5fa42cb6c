-- ===== src/Driver/Tests.antt =====
-- The theorems on src/asc/driver.py in a world that is a clock.
use asc_orchestrator_v.Base.{◌≡◌, ◌≢◌, ◌⊎◌, refl, true, none, some, [], ◌∷◌, All, ◌==◌, ℕ}
use asc_orchestrator_v.Models.{Task, TaskStatus, is_running}
use asc_orchestrator_v.Models.ExitCode.{pos}
use asc_orchestrator_v.State.{fetch_one}
use asc_orchestrator_v.State.Tasks.{row_to_task, get_tasks}
use asc_orchestrator_v.State.Tasks.Save.{row_of}
use asc_orchestrator_v.State.Tasks.Touch.{Touch}
use asc_orchestrator_v.Lock.Exclusion.{HeldBy}
use asc_orchestrator_v.Dag.{
  add_tasks, get_runnable_tasks, to_registry, is_task_ready, deps_completed,
}
use asc_orchestrator_v.Dag.Ready.{IsReady}
use asc_orchestrator_v.Driver.{get_max_attempts}
use asc_orchestrator_v.Driver.Effects.{Drive, shell, unfinished}
use asc_orchestrator_v.Driver.Retry.{execute_task_with_retry}
use asc_orchestrator_v.Driver.Retry.Bound.{Ends, execute_task_with_retry-Ends}
use asc_orchestrator_v.Driver.Retry.Touch.{execute_task_with_retry-Touch}
use asc_orchestrator_v.Driver.Complete.{complete_task}
use asc_orchestrator_v.Driver.Complete.Rows.{Settles, complete_task-Settles}
use asc_orchestrator_v.Driver.Reconcile.{reconcile_stale_tasks}
use asc_orchestrator_v.Driver.Reconcile.Stale.{reconcile_stale_tasks-idle}
use asc_orchestrator_v.Driver.Run.{get_all_tasks, get_next_task}
use asc_orchestrator_v.Driver.Run.Next.{HasRow, get_next_task-IsReady}
use asc_orchestrator_v.Driver.Run.Whole.{run, resolve_mission}
use asc_orchestrator_v.Driver.Run.Whole.Ends.{run-ends}
use asc_orchestrator_v.Driver.Run.Whole.Cleanup.{KeptOut, run-lock}
use asc_orchestrator_v.Fixtures.{task_a, row_a, db_a, env_of, config_m, drive_a, seven}

found_a : row_of "m" "a" db_a ≡ some row_a
unfolding fetch_one
found_a = refl

execute_task_with_retry-Ends_example :
    Ends "m" "a"
      (get_max_attempts config_m task_a)
      0
      1
      (execute_task_with_retry config_m (env_of (pos 5)) task_a shell drive_a)
execute_task_with_retry-Ends_example =
    execute_task_with_retry-Ends config_m (env_of (pos 5)) task_a shell "m" refl refl drive_a row_a
      found_a

execute_task_with_retry-Touch_example :
    Touch "m" "a" db_a.tasks
      (execute_task_with_retry config_m (env_of (pos 5)) task_a shell drive_a).1.db.tasks
execute_task_with_retry-Touch_example =
    execute_task_with_retry-Touch config_m (env_of (pos 5)) task_a shell "m" refl refl drive_a

complete_task-Settles_example :
    Settles "m" "a" TaskStatus.completed drive_a
      (complete_task config_m (env_of (pos 0)) task_a ("a.py" ∷ []) drive_a).1
complete_task-Settles_example =
    complete_task-Settles config_m (env_of (pos 0)) task_a "m" refl refl ("a.py" ∷ []) drive_a

-- An earlier run has left the task RUNNING.
abbrev interrupted : Drive ℕ
interrupted = record drive_a {
  db = record db_a { tasks = record row_a { status = TaskStatus.running } ∷ [] };
}

reconcile_stale_tasks-idle_example :
    All
      (λ r. (r.mission_id == "m") ≡ true → ¬ (is_running r.status ≡ true))
      (reconcile_stale_tasks config_m (env_of (pos 0)) interrupted).db.tasks
reconcile_stale_tasks-idle_example =
    reconcile_stale_tasks-idle config_m (env_of (pos 0)) "m" refl refl interrupted

abbrev read_a : Task
read_a = row_to_task (some row_a)

next_a : get_next_task config_m db_a ≡ some read_a
unfolding get_next_task get_all_tasks get_tasks add_tasks get_runnable_tasks to_registry
    is_task_ready deps_completed row_to_task
next_a = refl

get_next_task-IsReady_example :
    IsReady (get_all_tasks config_m db_a) read_a × HasRow "m" read_a db_a.tasks
get_next_task-IsReady_example = get_next_task-IsReady config_m db_a read_a next_a

resolved : (resolve_mission none config_m db_a).mission_id ≡ some "m"
unfolding resolve_mission
resolved = refl

run-ends_example : (run config_m (env_of (pos 0)) shell none drive_a).0 ≢ unfinished
run-ends_example = run-ends config_m (env_of (pos 0)) shell none drive_a "m" resolved refl

run-lock_example :
    let (res, e) = run config_m (env_of (pos 0)) shell none drive_a in
    KeptOut seven drive_a res e ⊎ (¬ HeldBy seven e.lock_file)
run-lock_example = run-lock config_m (env_of (pos 0)) shell none drive_a
