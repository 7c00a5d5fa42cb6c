-- ===== src/Dag/Tests.antt =====
-- The theorems on src/asc/dag.py at a mission of two tasks.
use asc_orchestrator_v.Base.{◌≡◌, refl, ◌↔◌, ◌⊎◌, inl, inr, List, [], ◌∷◌, All, Member, arith}
use asc_orchestrator_v.Base.Dict.{values}
use asc_orchestrator_v.Models.{Task, SchedulerState}
use asc_orchestrator_v.Dag.{as_list, to_registry, get_runnable_tasks, evaluate_mission}
use asc_orchestrator_v.Dag.Ready.{IsReady}
use asc_orchestrator_v.Dag.Evaluate.{
  IsCompleted, Outcome, evaluate_mission-Outcome, get_runnable_tasks_iff,
}
use asc_orchestrator_v.Dag.Progress.{evaluate_mission_ordered}
use asc_orchestrator_v.Fixtures.{done_a, task_b}

abbrev two_tasks : List Task
two_tasks = done_a ∷ task_b ∷ []

evaluate_mission-Outcome_example :
    Outcome (as_list two_tasks) (evaluate_mission "m" (as_list two_tasks)).state
evaluate_mission-Outcome_example = evaluate_mission-Outcome "m" (as_list two_tasks)

get_runnable_tasks_iff_example :
    Member task_b (get_runnable_tasks (as_list two_tasks))
    ↔ Member task_b (values (to_registry (as_list two_tasks)))
      × IsReady (to_registry (as_list two_tasks)) task_b
get_runnable_tasks_iff_example = get_runnable_tasks_iff task_b (as_list two_tasks)

evaluate_mission_ordered_example :
    let state = (evaluate_mission "m" (as_list two_tasks)).state in
    ((state ≡ SchedulerState.complete) × All IsCompleted two_tasks)
    ⊎ ((state ≡ SchedulerState.runnable) × (¬ All IsCompleted two_tasks))
evaluate_mission_ordered_example =
    evaluate_mission_ordered "m" two_tasks (refl, tt, (refl, (refl, tt), tt))
      (inl refl, (inr (inl refl), tt)) (omega arith)
