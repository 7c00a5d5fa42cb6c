-- ===== src/Driver/Attempt.antt =====
-- src/asc/driver.py: one round of the loop of `_execute_task_with_retry`.
pub mod Rows
pub mod Begin
use asc_orchestrator_v.Base.{
  ◌&&◌, ℕ, ◌+◌, String, Bool, true, false, not, ◌==◌, Option, none, some, List, [], ◌∷◌, map,
  nonempty, length, if◌then◌else◌, ltb,
}
use asc_orchestrator_v.Base.Dict.{Dict}
use asc_orchestrator_v.Base.Text.{first_chars, lower, concat_texts, show}
use asc_orchestrator_v.Base.Truthy.{truthy, or_text, or_default, or_number_default}
use asc_orchestrator_v.Models.{Task, TaskStatus, VerificationCommand, VerificationResult, success}
use asc_orchestrator_v.Models.ExitCode.{ℤ, pos, is_zero}
use asc_orchestrator_v.State.{Db, PayloadValue, nothing, text, number, code, texts}
use asc_orchestrator_v.State.Tasks.Status.{
  StatusTarget, of_id, StatusFields, no_fields, update_task_status, increment_attempt_count,
}
use asc_orchestrator_v.State.Attempts.{AttemptKeywords, of_keywords, record_attempt}
use asc_orchestrator_v.Verifier.{of_command, run_verification}
use asc_orchestrator_v.Repo.{Git, get_dirty_files, sorted_difference, rollback_attempt}
use asc_orchestrator_v.Events.{
  task_started, task_retry, executor_started, executor_heartbeat, executor_completed,
  executor_failed, verification_started, verification_passed, verification_failed,
  git_changeset_detected,
}
use asc_orchestrator_v.Driver.{Config, task_repo}
use asc_orchestrator_v.Driver.Effects.{
  Env, Drive, Action, Result, returned, raise, Adapter, omp, shell, mock, AdapterResult, Context,
  Executed, finished, raised, adapter_error, unknown_executor, ◌>>=◌, and_then,
}
use asc_orchestrator_v.Driver.Emit.{emit}

-- How a round ends: the task has passed, or it has failed with an exit code. Both carry the files
-- that the round has changed.
pub data RoundEnd : Type 0 where
  passed : List String → RoundEnd
  retry : ℤ → List String → RoundEnd

abbrev pub text_or_nothing : Option String → PayloadValue
text_or_nothing none = nothing
text_or_nothing (some s) = text s

abbrev status_of : Bool → TaskStatus
status_of true = TaskStatus.completed
status_of false = TaskStatus.failed

-- `build_adapter`; an empty name stands for "omp".
unfoldable pub build_adapter : String → Option Adapter
build_adapter executor =
    let name = lower (if executor == "" then "omp" else executor) in
    if name == "omp"
    then some omp
    else if name == "shell"
    then some shell
    else if name == "mock"
    then some mock
    else none

-- The two statements that open a round: the attempt is counted, and the task is RUNNING.
unfoldable pub begin_db : Option String → String → ℕ → ℕ → Db → ℕ × Db
begin_db mission_id task_id started now db =
    let (attempt, counted) = increment_attempt_count task_id mission_id db in
    (
      attempt,
      update_task_status now (of_id task_id (some TaskStatus.running))
          (record no_fields { started_at = some started }) mission_id counted,
    )

module _ {W : Type 0} (cfg : Config) (env : Env W) (max_attempts : ℕ) (task : Task) where
  -- `task.executor or self.executor`
  abbrev executor_name : String
  executor_name = or_default task.executor cfg.executor

  abbrev task_model : Option String
  task_model = or_text (or_text task.model cfg.model) env.omp_model

  abbrev pub context : Context
  context = record {
    working_directory = task_repo cfg task;
    model = task_model;
    execution_timeout = or_number_default task.execution_timeout cfg.execution_timeout;
  }

  -- `task.command.timeout if task.command else None`, or else the driver's timeout
  abbrev verify_timeout : ℕ
  verify_timeout =
      or_number_default (elim task.command [ none ↦ none | some c ↦ c.timeout ])
        cfg.verification_timeout

  -- The attempt is counted, the task is RUNNING, and the event says so.
  unfoldable pub begin_round : Drive W → ℕ × Drive W
  begin_round d =
      let (started, w) = env.clock d.world in
      let (now, w') = env.clock w in
      let (attempt, running) = begin_db cfg.mission_id task.id started now d.db in
      (
        attempt,
        emit cfg env task_started (some task.id)
            (("title", text task.title)
              ∷ ("attempt", number attempt)
              ∷ ("max_attempts", number max_attempts)
              ∷ ("executor", text executor_name)
              ∷ ("model", text_or_nothing task_model)
              ∷ [])
            (concat_texts (
              "Starting task '"
              ∷ task.id
              ∷ "' attempt "
              ∷ show attempt
              ∷ "/"
              ∷ show max_attempts
              ∷ []))
            (record d { db = running; world = w' }),
      )

  -- The adapter of the task, where the task names another executor than the driver's.
  unfoldable pub choose_adapter : Adapter → Option Adapter
  choose_adapter own =
      if truthy task.executor && not (lower (or_default task.executor "") == lower cfg.executor)
      then build_adapter (or_default task.executor "")
      else some own

  -- The heartbeats of one call, in tenths of a second.
  unfoldable pub beat : ℕ → List ℕ → Drive W → Drive W
  beat attempt [] d = d
  beat attempt (elapsed ∷ more) d = beat attempt more (
      emit cfg env executor_heartbeat (some task.id)
        (("attempt", number attempt) ∷ ("elapsed_seconds", number elapsed) ∷ []) "" d)

  -- `record_attempt` with the keywords of the driver.
  unfoldable pub record_run : ℕ → ℤ → String → String → ℕ → Option String → Bool → Drive W → Drive W
  record_run attempt exit_code stdout stderr duration log_path done d =
      let (timestamp, w) = env.clock d.world in
      let (new_id, w') = env.new_id w in
      record d {
        db =
            record_attempt new_id timestamp
              (of_keywords (record {
                id = none;
                task_id = some task.id;
                attempt_number = some attempt;
                status = some (status_of done);
                exit_code = some exit_code;
                stdout = some stdout;
                stderr = some stderr;
                timestamp = some timestamp;
                mission_id = cfg.mission_id;
                duration = some duration;
                log_path = log_path;
              }))
              d.db;
        world = w';
      }

  -- The executor's end: its event, and the record of the attempt.
  unfoldable pub note_executor : ℕ → AdapterResult → Drive W → Drive W
  note_executor attempt res d =
      record_run attempt res.exit_code res.stdout res.stderr res.duration res.log_path
        (is_zero res.exit_code)
        (if is_zero res.exit_code
          then emit cfg env executor_completed (some task.id)
              (("attempt", number attempt) ∷ ("exit_code", number 0) ∷ []) "" d
          else emit cfg env executor_failed (some task.id)
              (("attempt", number attempt)
                ∷ ("exit_code", code res.exit_code)
                ∷ ("stderr", text (first_chars 300 res.stderr))
                ∷ [])
              "" d)

  -- How the call of the adapter ended.
  unfoldable pub after_execute : ℕ → Executed → Action W AdapterResult
  after_execute attempt (raised message) d = (raise (adapter_error message), d)
  after_execute attempt (finished res) d = (returned res, note_executor attempt res d)

  -- Stage 1, with an adapter that could be built.
  unfoldable pub execute_stage : ℕ → Option Adapter → Action W AdapterResult
  execute_stage attempt none d = (raise (unknown_executor (or_default task.executor "")), d)
  execute_stage attempt (some adapter) d =
      let started =
        emit cfg env executor_started (some task.id)
          (("attempt", number attempt) ∷ ("executor", text executor_name) ∷ []) "" d in
      let (outcome, beats, w) = env.execute adapter task context started.world in
      after_execute attempt outcome (beat attempt beats (record started { world = w }))

  -- The files that are dirty now and were not before the attempt.
  unfoldable pub find_delta : List String → Drive W → List String
  find_delta baseline d =
      sorted_difference (get_dirty_files env.git (task_repo cfg task) d.world) baseline

  unfoldable pub note_delta : List String → Drive W → Drive W
  note_delta delta d =
      if nonempty delta
      then emit cfg env git_changeset_detected (some task.id) (("delta_files", texts delta) ∷ []) ""
          d
      else d

  -- A failed round undoes its own changes, and announces a retry if one is left.
  unfoldable pub undo_round : ℕ → List String → Drive W → Drive W
  undo_round attempt delta d =
      let clean =
        if nonempty delta
        then record d { world = rollback_attempt env.git (task_repo cfg task) delta d.world }
        else d in
      if ltb attempt max_attempts
      then emit cfg env task_retry (some task.id)
          (("attempt", number attempt) ∷ ("next_attempt", number (attempt + 1)) ∷ []) "" clean
      else clean

  -- `task.commands or ([task.command] if task.command else [])`
  abbrev pub verify_commands : List VerificationCommand
  verify_commands = elim task.commands [
    | c ∷ cs ↦ c ∷ cs
    | [] ↦ (elim task.command [ some c ↦ c ∷ [] | none ↦ [] ])
  ]

  -- The verdict of stage 2: its record and its event.
  unfoldable pub note_verification : ℕ → VerificationResult → Drive W → Drive W
  note_verification attempt vr d =
      let recorded =
        record_run attempt vr.exit_code vr.stdout vr.stderr vr.duration none (success vr) d in
      if success vr
      then emit cfg env verification_passed (some task.id)
          (("attempt", number attempt) ∷ ("duration", number vr.duration) ∷ []) "" recorded
      else emit cfg env verification_failed (some task.id)
          (("attempt", number attempt)
            ∷ ("exit_code", code vr.exit_code)
            ∷ ("stderr", text (first_chars 300 vr.stderr))
            ∷ [])
          "" recorded

  unfoldable pub judge : ℕ → List String → VerificationResult → Drive W → RoundEnd × Drive W
  judge attempt delta vr d =
      if success vr
      then (passed delta, note_verification attempt vr d)
      else (retry vr.exit_code delta, undo_round attempt delta (note_verification attempt vr d))

  unfoldable pub verify_stage :
      ℕ → List String → List VerificationCommand → Drive W → RoundEnd × Drive W
  verify_stage attempt delta [] d = (passed delta, d)
  verify_stage attempt delta (c ∷ cs) d =
      let count = map of_command (c ∷ cs) in
      let started =
        emit cfg env verification_started (some task.id)
          (("commands", texts (map (λ v. v.command) (c ∷ cs)))
            ∷ ("count", number (length count))
            ∷ [])
          "" d in
      let (vr, w) =
        run_verification env.processes cfg.verification_timeout count (task_repo cfg task)
          (some verify_timeout) started.world in
      judge attempt delta vr (record started { world = w })

  -- The rest of the round, once the adapter has returned.
  unfoldable pub finish_round : ℕ → List String → AdapterResult → Drive W → RoundEnd × Drive W
  finish_round attempt baseline res d =
      let delta = find_delta baseline d in
      let noted = note_delta delta d in
      if is_zero res.exit_code
      then verify_stage attempt delta verify_commands noted
      else (retry res.exit_code delta, undo_round attempt delta noted)

  abbrev pub return_round : RoundEnd × Drive W → Result RoundEnd × Drive W
  return_round (end, d) = (returned end, d)

  -- One round of the loop: the number of the attempt, and how it ended. `own` is `self.adapter`.
  unfoldable pub round : Adapter → Drive W → ℕ × Result RoundEnd × Drive W
  round own d =
      let (attempt, begun) = begin_round d in
      let baseline = get_dirty_files env.git (task_repo cfg task) begun.world in
      let (end, d') =
        (execute_stage attempt (choose_adapter own) >>= λ res d₁.
        return_round (finish_round attempt baseline res d₁))
          begun in
      (attempt, end, d')
