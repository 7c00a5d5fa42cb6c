-- ===== src/Driver/Attempt/Rows.antt =====
-- What one round does to the table of tasks: only its first part writes it.
use asc_orchestrator_v.Base.{
  ◌≢◌, ℕ, String, ◌≡◌, refl, ◌∙◌, Bool, Option, none, some, List, [], ◌∷◌, ltb, Bool-cases, inl,
  inr,
}
use asc_orchestrator_v.Models.{Task, VerificationCommand, VerificationResult, success}
use asc_orchestrator_v.Models.ExitCode.{ℤ, is_zero}
use asc_orchestrator_v.State.Attempts.{record_attempt}
use asc_orchestrator_v.Repo.{get_dirty_files}
use asc_orchestrator_v.Driver.{Config, task_repo}
use asc_orchestrator_v.Driver.Effects.{
  Env, Drive, Result, returned, raise, unfinished, Adapter, AdapterResult, Executed, finished,
  raised, Action, and_then,
}
use asc_orchestrator_v.Driver.Emit.{emit, tasks-emit}
use asc_orchestrator_v.Driver.Attempt.{
  begin_round, beat, record_run, note_executor, after_execute, execute_stage, note_delta,
  undo_round, note_verification, judge, verify_stage, finish_round, choose_adapter, round,
  return_round,
}

-- The table of tasks is the same.
abbrev pub SameTasks : {W : Type 0} → Drive W → Drive W → Type 0
SameTasks d e = e.db.tasks ≡ d.db.tasks

tasks-and_then :
    {W A B : Type 0} (r : Result A) (f : A → Action W B) (d : Drive W)
    → ((a : A) (e : Drive W) → SameTasks e (f a e).1)
    → SameTasks d (and_then r f d).1
tasks-and_then (returned a) f d h = h a d
tasks-and_then (raise e) f d h = refl
tasks-and_then unfinished f d h = refl

module _ {W : Type 0} (cfg : Config) (env : Env W) (max_attempts : ℕ) (task : Task) where
  tasks-beat :
      (attempt : ℕ) (beats : List ℕ) (d : Drive W)
      → SameTasks d (beat cfg env max_attempts task attempt beats d)
  unfolding beat
  tasks-beat attempt [] d = refl
  tasks-beat attempt (b ∷ bs) d =
      tasks-beat attempt bs (emit cfg env _ _ _ _ d) ∙ tasks-emit cfg env _ _ _ _ d

  tasks-record_run :
      (attempt : ℕ) (exit_code : ℤ) (stdout stderr : String) (duration : ℕ)
      (log_path : Option String) (done : Bool) (d : Drive W)
      → SameTasks d (
          record_run cfg env max_attempts task attempt exit_code stdout stderr duration log_path
            done d)
  unfolding record_run record_attempt
  tasks-record_run attempt exit_code stdout stderr duration log_path done d = refl

  tasks-note_executor :
      (attempt : ℕ) (res : AdapterResult) (d : Drive W)
      → SameTasks d (note_executor cfg env max_attempts task attempt res d)
  unfolding note_executor record_run record_attempt
  tasks-note_executor attempt res d = elim (Bool-cases (is_zero res.exit_code)) [
    | inl e ↦ rw e (tasks-emit cfg env _ _ _ _ d)
    | inr e ↦ rw e (tasks-emit cfg env _ _ _ _ d)
  ]

  tasks-after_execute :
      (attempt : ℕ) (outcome : Executed) (d : Drive W)
      → SameTasks d (after_execute cfg env max_attempts task attempt outcome d).1
  unfolding after_execute
  tasks-after_execute attempt (raised message) d = refl
  tasks-after_execute attempt (finished res) d = tasks-note_executor attempt res d

  tasks-execute_stage :
      (attempt : ℕ) (adapter : Option Adapter) (d : Drive W)
      → SameTasks d (execute_stage cfg env max_attempts task attempt adapter d).1
  unfolding execute_stage
  tasks-execute_stage attempt none d = refl
  tasks-execute_stage attempt (some adapter) d =
      tasks-after_execute attempt _ _ ∙ tasks-beat attempt _ _ ∙ tasks-emit cfg env _ _ _ _ d

  tasks-note_delta :
      (delta : List String) (d : Drive W)
      → SameTasks d (note_delta cfg env max_attempts task delta d)
  unfolding note_delta
  tasks-note_delta [] d = refl
  tasks-note_delta (f ∷ fs) d = tasks-emit cfg env _ _ _ _ d

  tasks-undo_round :
      (attempt : ℕ) (delta : List String) (d : Drive W)
      → SameTasks d (undo_round cfg env max_attempts task attempt delta d)
  unfolding undo_round
  tasks-undo_round attempt [] d = elim (Bool-cases (ltb attempt max_attempts)) [
    | inl e ↦ rw e (tasks-emit cfg env _ _ _ _ _)
    | inr e ↦ rw e
  ]
  tasks-undo_round attempt (f ∷ fs) d = elim (Bool-cases (ltb attempt max_attempts)) [
    | inl e ↦ rw e (tasks-emit cfg env _ _ _ _ _)
    | inr e ↦ rw e
  ]

  tasks-note_verification :
      (attempt : ℕ) (vr : VerificationResult) (d : Drive W)
      → SameTasks d (note_verification cfg env max_attempts task attempt vr d)
  unfolding note_verification record_run record_attempt
  tasks-note_verification attempt vr d = elim (Bool-cases (success vr)) [
    | inl e ↦ rw e (tasks-emit cfg env _ _ _ _ _)
    | inr e ↦ rw e (tasks-emit cfg env _ _ _ _ _)
  ]

  tasks-judge :
      (attempt : ℕ) (delta : List String) (vr : VerificationResult) (d : Drive W)
      → SameTasks d (judge cfg env max_attempts task attempt delta vr d).1
  unfolding judge
  tasks-judge attempt delta vr d = elim (Bool-cases (success vr)) [
    | inl e ↦ rw e (tasks-note_verification attempt vr d)
    | inr e ↦ rw e (tasks-undo_round attempt delta _ ∙ tasks-note_verification attempt vr d)
  ]

  tasks-verify_stage :
      (attempt : ℕ) (delta : List String) (commands : List VerificationCommand) (d : Drive W)
      → SameTasks d (verify_stage cfg env max_attempts task attempt delta commands d).1
  unfolding verify_stage
  tasks-verify_stage attempt delta [] d = refl
  tasks-verify_stage attempt delta (c ∷ cs) d =
      tasks-judge attempt delta _ _ ∙ tasks-emit cfg env _ _ _ _ d

  tasks-finish_round :
      (attempt : ℕ) (baseline : List String) (res : AdapterResult) (d : Drive W)
      → SameTasks d (finish_round cfg env max_attempts task attempt baseline res d).1
  unfolding finish_round
  tasks-finish_round attempt baseline res d = elim (Bool-cases (is_zero res.exit_code)) [
    | inl e ↦ rw e (tasks-verify_stage attempt _ _ _ ∙ tasks-note_delta _ d)
    | inr e ↦ rw e (tasks-undo_round attempt _ _ ∙ tasks-note_delta _ d)
  ]

  pub tasks-round :
      (own : Adapter) (d : Drive W)
      → SameTasks
          (begin_round cfg env max_attempts task d).1
          (round cfg env max_attempts task own d).2
  unfolding round
  tasks-round own d =
      let (attempt, begun) = begin_round cfg env max_attempts task d in
      let adapter = choose_adapter cfg env max_attempts task own in
      let (res, ran) = execute_stage cfg env max_attempts task attempt adapter begun in
      tasks-and_then res
        (λ r e. return_round cfg env max_attempts task (
          finish_round cfg env max_attempts task attempt
            (get_dirty_files env.git (task_repo cfg task) begun.world) r e))
        ran (λ r e. tasks-finish_round attempt _ r e)
      ∙ tasks-execute_stage attempt adapter begun

module _ {W : Type 0} (cfg : Config) (env : Env W) (max_attempts : ℕ) (task : Task) where
  execute_stage-finishes :
      (attempt : ℕ) (adapter : Option Adapter) (d : Drive W)
      → (execute_stage cfg env max_attempts task attempt adapter d).0 ≢ unfinished
  unfolding execute_stage
  execute_stage-finishes attempt none d h = cc
  execute_stage-finishes attempt (some adapter) d h = after _ _ h
    where
      after :
          (outcome : Executed) (e : Drive W)
          → (after_execute cfg env max_attempts task attempt outcome e).0 ≢ unfinished
      after (finished res) e h = unfold after_execute in cc h
      after (raised message) e h = unfold after_execute in cc h

  -- A round returns or raises: it has no loop of its own that could go on.
  pub round-finishes :
      (own : Adapter) (d : Drive W) → (round cfg env max_attempts task own d).1 ≢ unfinished
  unfolding round
  round-finishes own d =
      let (attempt, begun) = begin_round cfg env max_attempts task d in
      let adapter = choose_adapter cfg env max_attempts task own in
      after (execute_stage cfg env max_attempts task attempt adapter begun)
        (execute_stage-finishes attempt adapter begun)
    where
      attempt : ℕ
      attempt = (begin_round cfg env max_attempts task d).0

      begun : Drive W
      begun = (begin_round cfg env max_attempts task d).1

      after :
          (rd : Result AdapterResult × Drive W)
          → rd.0 ≢ unfinished
          → (and_then rd.0
              (λ r e. return_round cfg env max_attempts task (
                finish_round cfg env max_attempts task attempt
                  (get_dirty_files env.git (task_repo cfg task) begun.world)
                  r
                  e))
              rd.1).0
            ≢ unfinished
      after (returned r, e) n h = cc
      after (raise x, e) n h = cc
      after (unfinished, e) n h = n refl
