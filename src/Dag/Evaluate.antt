-- ===== src/Dag/Evaluate.antt =====
-- The four outcomes of `evaluate_mission`, each by what the tasks of the mission are like.
use asc_orchestrator_v.Base.{
  Member, suc, ◌<◌, String, ◌≡◌, refl, ap, ◌↔◌, Bool, true, ◌&&◌, List, [], ◌∷◌, All, Any, arith,
  select, count_if, nonempty, length, inl, inr, ltb, nat_eq, if◌then◌else◌,
}
use asc_orchestrator_v.Base.Select.{
  Member-select, select-Member, select-nonempty_iff, count-All_iff, All-iff, Any-iff, iff_trans,
  not_iff,
}
use asc_orchestrator_v.Base.Dict.{Dict, values}
use asc_orchestrator_v.Models.{Task, TaskStatus, SchedulerState}
use asc_orchestrator_v.Dag.{
  AllTasks, as_dict, to_registry, is_task_ready, get_runnable_tasks, task_completed, task_running,
  evaluate_mission,
}
use asc_orchestrator_v.Dag.Ready.{IsReady, is_task_ready_iff}

pub length-values : (d : Dict Task) → length (values d) ≡ length d
length-values [] = refl
length-values ((k, v) ∷ d) = ap suc (length-values d)

abbrev pub IsCompleted : Task → Type 0
IsCompleted t = t.status ≡ TaskStatus.completed

abbrev pub IsRunning : Task → Type 0
IsRunning t = t.status ≡ TaskStatus.running

module _ (all_tasks : AllTasks) where
  -- There is a task, and every task is completed.
  abbrev pub AllDone : Type 0
  AllDone = (0 < length (to_registry all_tasks)) × All IsCompleted (values (to_registry all_tasks))

  abbrev pub SomeRunning : Type 0
  SomeRunning = Any IsRunning (values (to_registry all_tasks))

  abbrev pub SomeReady : Type 0
  SomeReady = Any (IsReady (to_registry all_tasks)) (values (to_registry all_tasks))

  abbrev done_test : Bool
  done_test =
      nat_eq (count_if task_completed (values (to_registry all_tasks)))
        (length (to_registry all_tasks))
      && ltb 0 (length (to_registry all_tasks))

  abbrev running_test : Bool
  running_test = nonempty (select task_running (values (to_registry all_tasks)))

  abbrev ready_test : Bool
  ready_test = nonempty (
      select (λ t. is_task_ready t (as_dict (to_registry all_tasks)))
        (values (to_registry all_tasks)))

IsCompleted-iff : (t : Task) → (task_completed t ≡ true) ↔ IsCompleted t
IsCompleted-iff t = (λ h. ground arith, λ h. ground arith)

IsRunning-iff : (t : Task) → (task_running t ≡ true) ↔ IsRunning t
IsRunning-iff t = (λ h. ground arith, λ h. ground arith)

module _ (all_tasks : AllTasks) where
  done_iff : (done_test all_tasks ≡ true) ↔ AllDone all_tasks
  done_iff = (
    λ h. (
      ground arith,
      (All-iff IsCompleted-iff tasks).0 (
          (count-All_iff task_completed tasks).0
            (ground (arith, length-values (to_registry all_tasks)))),
    ),
    λ (some_task, all). ground (
      arith,
      length-values (to_registry all_tasks),
      (count-All_iff task_completed tasks).1 ((All-iff IsCompleted-iff tasks).1 all),
    ),
  )
    where
      tasks : List Task
      tasks = values (to_registry all_tasks)

  some_running_iff : (running_test all_tasks ≡ true) ↔ SomeRunning all_tasks
  some_running_iff = (
    λ h. (Any-iff IsRunning-iff tasks).0 ((select-nonempty_iff task_running tasks).0 h),
    λ h. (select-nonempty_iff task_running tasks).1 ((Any-iff IsRunning-iff tasks).1 h),
  )
    where
      tasks : List Task
      tasks = values (to_registry all_tasks)

  IsReady-iff :
      (t : Task)
      → (is_task_ready t (as_dict (to_registry all_tasks)) ≡ true)
        ↔ IsReady (to_registry all_tasks) t
  unfolding to_registry
  IsReady-iff t = is_task_ready_iff t (as_dict (to_registry all_tasks))

  some_ready_iff : (ready_test all_tasks ≡ true) ↔ SomeReady all_tasks
  some_ready_iff = (
    λ h. (Any-iff IsReady-iff tasks).0 ((select-nonempty_iff _ tasks).0 h),
    λ h. (select-nonempty_iff _ tasks).1 ((Any-iff IsReady-iff tasks).1 h),
  )
    where
      tasks : List Task
      tasks = values (to_registry all_tasks)

-- A completed task neither runs nor is ready.
done_excludes-IsRunning : (xs : List Task) → All IsCompleted xs → ¬ Any IsRunning xs
done_excludes-IsRunning (x ∷ xs) h (inl r) = cc (h.0)
done_excludes-IsRunning (x ∷ xs) h (inr m) = done_excludes-IsRunning xs h.1 m
done_excludes-IsRunning [] h m = m

pub done_excludes-IsReady :
    (registry : Dict Task) (xs : List Task) → All IsCompleted xs → ¬ Any (IsReady registry) xs
done_excludes-IsReady registry (x ∷ xs) h (inl r) = elim r.waiting [
  | inl e ↦ cc (h.0)
  | inr e ↦ cc (h.0)
]
done_excludes-IsReady registry (x ∷ xs) h (inr m) = done_excludes-IsReady registry xs h.1 m
done_excludes-IsReady registry [] h m = m

-- What the three tests say of the state that is chosen.
record Choice (d r y : Bool) (s : SchedulerState) : Type 0 where
  complete : (s ≡ SchedulerState.complete) ↔ (d ≡ true)
  running : (s ≡ SchedulerState.running) ↔ (r ≡ true)
  runnable : (s ≡ SchedulerState.runnable) ↔ (¬ (r ≡ true)) × (y ≡ true)
  blocked : (s ≡ SchedulerState.blocked) ↔ (¬ (d ≡ true)) × (¬ (r ≡ true)) × (¬ (y ≡ true))

choose :
    (d r y : Bool) (s : SchedulerState)
    → (d ≡ true → ¬ (r ≡ true))
    → (d ≡ true → ¬ (y ≡ true))
    → s ≡ (
        if d
        then SchedulerState.complete
        else if r
        then SchedulerState.running
        else if y
        then SchedulerState.runnable
        else SchedulerState.blocked)
    → Choice d r y s
choose d r y s dr dy e = record {
  complete = (λ h. ground arith, λ h. ground arith);
  running = (λ h. ground arith, λ h. ground arith);
  runnable = (λ h. (ground arith, ground arith), λ h. ground arith);
  blocked = (λ h. (ground arith, ground arith, ground arith), λ h. ground arith);
}

-- The state of a mission, by its tasks alone.
pub record Outcome (all_tasks : AllTasks) (s : SchedulerState) : Type 0 where
  pub complete : (s ≡ SchedulerState.complete) ↔ AllDone all_tasks
  pub running : (s ≡ SchedulerState.running) ↔ SomeRunning all_tasks
  pub runnable : (s ≡ SchedulerState.runnable) ↔ (¬ SomeRunning all_tasks) × SomeReady all_tasks
  pub blocked :
      (s ≡ SchedulerState.blocked)
      ↔ (¬ AllDone all_tasks) × (¬ SomeRunning all_tasks) × (¬ SomeReady all_tasks)

module _ (mission_id : String) (all_tasks : AllTasks) where
  choice :
      Choice
        (done_test all_tasks)
        (running_test all_tasks)
        (ready_test all_tasks)
        (evaluate_mission mission_id all_tasks).state
  unfolding evaluate_mission get_runnable_tasks to_registry
  choice =
      choose _ _ _ _
        (λ d r.
          done_excludes-IsRunning _ ((done_iff all_tasks).0 d).1 ((some_running_iff all_tasks).0 r))
        (λ d y.
          done_excludes-IsReady _ _ ((done_iff all_tasks).0 d).1 ((some_ready_iff all_tasks).0 y))
        (ground arith)

  -- A mission is COMPLETE exactly when it has a task and all tasks are completed; RUNNING exactly
  -- when a task is running; RUNNABLE exactly when none is running and one is ready; BLOCKED
  -- exactly in the remaining case.
  pub evaluate_mission-Outcome : Outcome all_tasks (evaluate_mission mission_id all_tasks).state
  evaluate_mission-Outcome = record {
    complete = iff_trans choice.complete (done_iff all_tasks);
    running = iff_trans choice.running (some_running_iff all_tasks);
    runnable = iff_trans choice.runnable (
      λ (n, y). ((not_iff (some_running_iff all_tasks)).0 n, (some_ready_iff all_tasks).0 y),
      λ (n, y). ((not_iff (some_running_iff all_tasks)).1 n, (some_ready_iff all_tasks).1 y),
    );
    blocked = iff_trans choice.blocked (
      λ (d, n, y). (
        (not_iff (done_iff all_tasks)).0 d,
        (not_iff (some_running_iff all_tasks)).0 n,
        (not_iff (some_ready_iff all_tasks)).0 y,
      ),
      λ (d, n, y). (
        (not_iff (done_iff all_tasks)).1 d,
        (not_iff (some_running_iff all_tasks)).1 n,
        (not_iff (some_ready_iff all_tasks)).1 y,
      ),
    );
  }

-- The runnable tasks are the ready tasks of the registry: all of them, and no other.
pub get_runnable_tasks_iff :
    (t : Task) (all_tasks : AllTasks)
    → Member t (get_runnable_tasks all_tasks)
      ↔ Member t (values (to_registry all_tasks)) × IsReady (to_registry all_tasks) t
unfolding get_runnable_tasks
get_runnable_tasks_iff t all_tasks = (
  λ m. let (listed, e) = Member-select _ t _ m in (listed, (IsReady-iff all_tasks t).0 e),
  λ (listed, r). select-Member _ t _ listed ((IsReady-iff all_tasks t).1 r),
)
