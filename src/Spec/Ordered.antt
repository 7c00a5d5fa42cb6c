-- ===== src/Spec/Ordered.antt =====
-- The tasks of an accepted mission are listed behind their dependencies.
use asc_orchestrator_v.Base.{
  ℕ, suc, ◌<◌, String, ◌≡◌, refl, subst, true, false, none, List, [], ◌∷◌, All, ◌⊎◌, contains,
  Bool-cases, Option-cases, inl, inr, arith, eq_iff, length,
}
use asc_orchestrator_v.Models.{Task, TaskStatus, SchedulerState, MissionSpec}
use asc_orchestrator_v.Dag.{as_list, evaluate_mission}
use asc_orchestrator_v.Dag.Evaluate.{IsCompleted}
use asc_orchestrator_v.Dag.Progress.{IsOrdered, IsSettled, evaluate_mission_ordered}
use asc_orchestrator_v.Spec.{
  TaskData, task_dict, other_task, TaskFields, SpecError, Parsed, parsed, rejected, build_task,
  first_missing, check_depends, given_depends, parse_fields, parse_task, parse_tasks, MissionData,
  task_list, other_tasks,
}
use asc_orchestrator_v.Spec.Mission.{parse_dict, with_tasks, build_spec}

-- What the loop has tested of a task.
record IsNext (seen : List String) (t : Task) : Type 0 where
  fresh : contains t.id seen ≡ false
  known : All (λ d. contains d seen ≡ true) t.depends_on
  pending : t.status ≡ TaskStatus.pending

all_known :
    (id : String) (seen ds : List String)
    → contains id ds ≡ false
    → first_missing (id ∷ seen) ds ≡ none
    → All (λ d. contains d seen ≡ true) ds
unfolding first_missing
all_known id seen [] h e = tt
all_known id seen (d ∷ ds) h e =
    (ground (arith, eq_iff id d, eq_iff d id), all_known id seen ds (ground arith) (ground arith))

checked :
    (id : String) (seen ds : List String)
    → check_depends id (id ∷ seen) ds ≡ none
    → All (λ d. contains d seen ≡ true) ds
unfolding check_depends
checked id seen ds h = elim (Bool-cases (contains id ds)) [
  | inl e ↦ absurd (ground arith)
  | inr e ↦ all_known id seen ds e (ground arith)
]

parse_fields-IsNext :
    (t : TaskFields) (id title prompt : String) (seen : List String) (u : Task)
    → parse_fields t id title prompt seen ≡ parsed u
    → IsNext seen u
unfolding parse_fields build_task
parse_fields-IsNext t id title prompt seen u h = elim (Bool-cases (contains id seen)) [
  | inl e ↦ absurd (ground arith)
  | inr e ↦ (elim (Option-cases (given_depends t.depends_on)) [
    | inl n ↦ absurd (ground arith)
    | inr (ds, g) ↦ (elim (Option-cases (check_depends id (id ∷ seen) ds)) [
      | inr (x, c) ↦ absurd (ground arith)
      | inl c ↦
          let same : build_task t id title prompt ds ≡ u = ground arith in
          subst (IsNext seen) same
            (record { fresh = e; known = checked id seen ds c; pending = refl })
    ])
  ])
]

parse_task-IsNext :
    (i : ℕ) (seen : List String) (d : TaskData) (u : Task)
    → parse_task i seen d ≡ parsed u
    → IsNext seen u
unfolding parse_task
parse_task-IsNext i seen other_task u h = absurd (ground arith)
parse_task-IsNext i seen (task_dict t) u h = elim (Option-cases t.id) [
  | inl a ↦ absurd (ground arith)
  | inr (id, a) ↦ (elim (Option-cases t.title) [
    | inl b ↦ absurd (ground arith)
    | inr (title, b) ↦ (elim (Option-cases t.prompt) [
      | inl c ↦ absurd (ground arith)
      | inr (prompt, c) ↦ parse_fields-IsNext t id title prompt seen u (ground arith)
    ])
  ])
]

Parsed-cases :
    {A : Type 0} (p : Parsed A) → ((a : A) × (p ≡ parsed a)) ⊎ ((e : SpecError) × (p ≡ rejected e))
Parsed-cases (parsed a) = inl (a, refl)
Parsed-cases (rejected e) = inr (e, refl)

abbrev AllPending : List Task → Type 0
AllPending ts = All (λ t. t.status ≡ TaskStatus.pending) ts

parse_tasks-IsOrdered :
    (i : ℕ) (seen : List String) (ds : List TaskData) (ts : List Task)
    → parse_tasks i seen ds ≡ parsed ts
    → IsOrdered seen ts × AllPending ts
unfolding parse_tasks
parse_tasks-IsOrdered i seen [] ts h =
    let same : [] ≡ ts = ground arith in
    subst (λ us. IsOrdered seen us × AllPending us) same (tt, tt)
parse_tasks-IsOrdered i seen (d ∷ ds) ts h = elim (Parsed-cases (parse_task i seen d)) [
  | inr (e, p) ↦ absurd (ground arith)
  | inl (t, p) ↦ (elim (Parsed-cases (parse_tasks (suc i) (t.id ∷ seen) ds)) [
    | inr (e, q) ↦ absurd (ground arith)
    | inl (us, q) ↦
        let same : t ∷ us ≡ ts = ground arith in
        let next = parse_task-IsNext i seen d t p in
        let (ordered, pending) = parse_tasks-IsOrdered (suc i) (t.id ∷ seen) ds us q in
        subst (λ vs. IsOrdered seen vs × AllPending vs) same
          ((next.fresh, next.known, ordered), (next.pending, pending))
  ])
]

-- A mission that the parser accepts has distinct task ids, lists each task behind its dependencies,
-- and all its tasks are PENDING.
pub parse_dict-IsOrdered :
    (m : MissionData) (spec : MissionSpec)
    → parse_dict m ≡ parsed spec
    → IsOrdered [] spec.tasks × AllPending spec.tasks
unfolding parse_dict with_tasks build_spec
parse_dict-IsOrdered m spec h = elim (Option-cases m.id) [
  | inl a ↦ absurd (ground arith)
  | inr (id, a) ↦ (elim (Option-cases m.goal) [
    | inl b ↦ absurd (ground arith)
    | inr (goal, b) ↦ (elim (Option-cases m.tasks) [
      | inl c ↦ absurd (ground arith)
      | inr (other_tasks, c) ↦ absurd (ground arith)
      | inr (task_list ds, c) ↦ (elim (Parsed-cases (parse_tasks 0 [] ds)) [
        | inr (e, p) ↦ absurd (ground arith)
        | inl (ts, p) ↦
            let same : ts ≡ spec.tasks = ground arith in
            subst (λ us. IsOrdered [] us × AllPending us) same (parse_tasks-IsOrdered 0 [] ds ts p)
      ])
    ])
  ])
]

AllPending-IsSettled : (ts : List Task) → AllPending ts → All IsSettled ts
AllPending-IsSettled [] h = tt
AllPending-IsSettled (t ∷ ts) h = (inr (inl h.0), AllPending-IsSettled ts h.1)

AllPending-incomplete : (ts : List Task) → 0 < length ts → AllPending ts → ¬ All IsCompleted ts
AllPending-incomplete [] lt h c = omega arith
AllPending-incomplete (t ∷ ts) lt h c = cc (h.0, c.0)

-- A mission of at least one task that the parser accepts is RUNNABLE when it starts: it is not stuck
-- on a dependency.
pub parse_dict-runnable :
    (m : MissionData) (spec : MissionSpec)
    → parse_dict m ≡ parsed spec
    → 0 < length spec.tasks
    → (evaluate_mission spec.id (as_list spec.tasks)).state ≡ SchedulerState.runnable
parse_dict-runnable m spec h lt =
    let (ordered, pending) = parse_dict-IsOrdered m spec h in
    elim (evaluate_mission_ordered spec.id spec.tasks ordered
      (AllPending-IsSettled spec.tasks pending) lt) [
        | inl (e, all) ↦ absurd (AllPending-incomplete spec.tasks lt pending all)
        | inr (e, _) ↦ e
      ]
