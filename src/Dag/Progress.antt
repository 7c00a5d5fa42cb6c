-- ===== src/Dag/Progress.antt =====
-- Tasks that are listed behind their dependencies always leave something to run.
use asc_orchestrator_v.Base.{
  Bool-cases, subst, ◌<◌, String, ◌≡◌, refl, ap, ◌∙◌, true, false, ◌==◌, eq_iff, str_eq_refl, none,
  some, List, [], ◌∷◌, ◌++◌, map, All, Any, ◌⊎◌, inl, inr, contains, arith, length,
}
use mathlib.Core.List.{append_assoc, append-nil}
use asc_orchestrator_v.Base.Dict.{Dict, lookup, insert, values}
use asc_orchestrator_v.Models.{Task, TaskStatus, SchedulerState}
use asc_orchestrator_v.Dag.{as_list, to_registry, add_tasks, evaluate_mission}
use asc_orchestrator_v.Dag.Ready.{DepDone, IsReady}
use asc_orchestrator_v.Dag.Evaluate.{
  IsCompleted, IsRunning, Outcome, done_excludes-IsReady, evaluate_mission-Outcome, length-values,
}

-- Each task has a new id, and depends only on `seen` and on the tasks before it.
abbrev pub IsOrdered : List String → List Task → Type 0
IsOrdered seen [] = Unit
IsOrdered seen (t ∷ ts) =
    (contains t.id seen ≡ false)
    × All (λ d. contains d seen ≡ true) t.depends_on
    × IsOrdered (t.id ∷ seen) ts

-- The task waits to run, or it is completed.
abbrev pub IsSettled : Task → Type 0
IsSettled t =
    IsCompleted t ⊎ ((t.status ≡ TaskStatus.pending) ⊎ (t.status ≡ TaskStatus.interrupted))

abbrev entry : Task → String × Task
entry t = (t.id, t)

insert_fresh :
    (k : String) (t : Task) (d : Dict Task) → lookup k d ≡ none → insert k t d ≡ d ++ (k, t) ∷ []
insert_fresh k t [] h = refl
insert_fresh k t ((j, u) ∷ d) h = ground (arith, insert_fresh k t d)

lookup-append : (k : String) (d e : Dict Task) → lookup k d ≡ none → lookup k (d ++ e) ≡ lookup k e
lookup-append k [] e h = refl
lookup-append k ((j, u) ∷ d) e h = ground (arith, lookup-append k d e)

-- Under distinct ids the registry lists the tasks as they were given.
add_tasks_fresh :
    (seen : List String) (d : Dict Task) (ts : List Task)
    → IsOrdered seen ts
    → ((k : String) → contains k seen ≡ false → lookup k d ≡ none)
    → add_tasks d ts ≡ d ++ map entry ts
unfolding add_tasks
add_tasks_fresh seen d [] o fresh = rw append-nil
add_tasks_fresh seen d (t ∷ ts) o fresh = rw (insert_fresh t.id t d (fresh t.id o.0)) (
    add_tasks_fresh (t.id ∷ seen) (d ++ entry t ∷ []) ts o.2
      (λ k h. lookup-append k d (entry t ∷ []) (fresh k (ground arith)) ∙ ground arith)
    ∙ append_assoc d (entry t ∷ []) (map entry ts))

values-entries : (ts : List Task) → values (map entry ts) ≡ ts
values-entries [] = refl
values-entries (t ∷ ts) = ap (λ l. t ∷ l) (values-entries ts)

IsOrdered-fresh :
    (k : String) (seen : List String) (ts : List Task)
    → IsOrdered seen ts
    → contains k seen ≡ true
    → All (λ t. (k == t.id) ≡ false) ts
IsOrdered-fresh k seen [] o h = tt
IsOrdered-fresh k seen (t ∷ ts) o h =
    (ground (arith, eq_iff k t.id), IsOrdered-fresh k (t.id ∷ seen) ts o.2 (ground arith))

lookup-entry :
    (k : String) (t : Task) (d : Dict Task) (xs : List Task)
    → All (λ x. (k == x.id) ≡ false) xs
    → All (λ x. lookup x.id d ≡ some x) xs
    → All (λ x. lookup x.id ((k, t) ∷ d) ≡ some x) xs
lookup-entry k t d [] ne h = tt
lookup-entry k t d (x ∷ xs) ne h = (ground arith, lookup-entry k t d xs ne.1 h.1)

lookup-entries :
    (seen : List String) (ts : List Task)
    → IsOrdered seen ts
    → All (λ t. lookup t.id (map entry ts) ≡ some t) ts
lookup-entries seen [] o = tt
lookup-entries seen (t ∷ ts) o = (
  ground (arith, str_eq_refl t.id),
  lookup-entry t.id t (map entry ts) ts
      (IsOrdered-fresh t.id (t.id ∷ seen) ts o.2 (ground (arith, str_eq_refl t.id)))
      (lookup-entries (t.id ∷ seen) ts o.2),
)

-- The first task that is not completed has all of its dependencies completed.
IsReady-or_done :
    (registry : Dict Task) (seen : List String) (ts : List Task)
    → IsOrdered seen ts
    → All (λ t. lookup t.id registry ≡ some t) ts
    → All IsSettled ts
    → ((s : String) → contains s seen ≡ true → DepDone registry s)
    → Any (IsReady registry) ts ⊎ All IsCompleted ts
IsReady-or_done registry seen [] o found settled done = inr tt
IsReady-or_done registry seen (t ∷ ts) o found settled done = elim (settled.0) [
  | inl c ↦ after c (IsReady-or_done registry (t.id ∷ seen) ts o.2 found.1 settled.1 (more c))
  | inr w ↦ inl (inl (record { waiting = w; done = deps t.depends_on o.1 }))
]
  where
    more : IsCompleted t → (s : String) → contains s (t.id ∷ seen) ≡ true → DepDone registry s
    more c s h = elim (Bool-cases (t.id == s)) [
      | inl e ↦ (t, subst (λ k. lookup k registry ≡ some t) ((eq_iff t.id s).0 e) found.0, c)
      | inr e ↦ done s (rw e at h)
    ]

    deps : (ds : List String) → All (λ d. contains d seen ≡ true) ds → All (DepDone registry) ds
    deps [] h = tt
    deps (d ∷ ds) h = (done d h.0, deps ds h.1)

    after :
        IsCompleted t
        → Any (IsReady registry) ts ⊎ All IsCompleted ts
        → Any (IsReady registry) (t ∷ ts) ⊎ All IsCompleted (t ∷ ts)
    after c (inl r) = inl (inr r)
    after c (inr all) = inr (c, all)

settled-not-IsRunning : (ts : List Task) → All IsSettled ts → ¬ Any IsRunning ts
settled-not-IsRunning [] h m = m
settled-not-IsRunning (t ∷ ts) h (inl r) = elim (h.0) [
  | inl c ↦ cc
  | inr w ↦ elim w [ inl e ↦ cc | inr e ↦ cc ]
]
settled-not-IsRunning (t ∷ ts) h (inr m) = settled-not-IsRunning ts h.1 m

to_registry-ordered : (ts : List Task) → IsOrdered [] ts → to_registry (as_list ts) ≡ map entry ts
unfolding to_registry
to_registry-ordered ts o = add_tasks_fresh [] [] ts o (λ k h. refl)

-- A mission whose tasks have distinct ids, each listed behind its dependencies, and are all
-- PENDING, INTERRUPTED or COMPLETED, is never BLOCKED: it is COMPLETE if it has a task and all are
-- completed, and RUNNABLE if one is not.
pub evaluate_mission_ordered :
    (mission_id : String) (ts : List Task)
    → IsOrdered [] ts
    → All IsSettled ts
    → 0 < length ts
    → let state = (evaluate_mission mission_id (as_list ts)).state in
      ((state ≡ SchedulerState.complete) × All IsCompleted ts)
      ⊎ ((state ≡ SchedulerState.runnable) × (¬ All IsCompleted ts))
evaluate_mission_ordered mission_id ts o settled some_task =
    elim (IsReady-or_done (map entry ts) [] ts o (lookup-entries [] ts o) settled (λ s h. cc)) [
      | inr all ↦ inl (outcome.complete.1 (rw (registry, values-entries) (len, all)), all)
      | inl r ↦ inr (
        outcome.runnable.1 (rw (registry, values-entries) (settled-not-IsRunning ts settled, r)),
        λ all. done_excludes-IsReady (map entry ts) ts all r,
      )
    ]
  where
    registry : to_registry (as_list ts) ≡ map entry ts
    registry = to_registry-ordered ts o

    outcome : Outcome (as_list ts) (evaluate_mission mission_id (as_list ts)).state
    outcome = evaluate_mission-Outcome mission_id (as_list ts)

    len : 0 < length (map entry ts)
    len = omega (arith, length-values (map entry ts), ap length (values-entries ts))
