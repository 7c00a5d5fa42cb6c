-- ===== src/Verifier.antt =====
-- src/asc/verifier.py: verification commands run one after the other, up to the first failure.
-- Starting a process and looking for a directory are the parameter `Shell`, over the state `W` of
-- the world outside the program.
pub mod Ran
pub mod FailFast
mod Tests
use asc_orchestrator_v.Base.{
  ℕ, ◌+◌, String, Bool, true, false, ◌==◌, Option, none, some, List, [], ◌∷◌, ◌++◌, map, ◌&&◌,
  if◌then◌else◌,
}
use asc_orchestrator_v.Base.Text.{concat_texts, join_lines, show}
use asc_orchestrator_v.Base.Truthy.{truthy, or_default}
use asc_orchestrator_v.Models.{VerificationCommand, VerificationResult, CommandResult}
use asc_orchestrator_v.Models.ExitCode.{ℤ, pos, is_zero}

-- What `subprocess.run` ends in: a return code with the two outputs, `TimeoutExpired`, or another
-- exception with its text.
pub data Finished : Type 0 where
  exited : ℤ → String → String → Finished
  timed_out : Finished
  failed : String → Finished

-- `run command cwd timeout` also gives the time that has passed.
pub record Shell (W : Type 0) : Type 0 where
  pub path_exists : String → W → Bool
  pub run : String → Option String → ℕ → W → Finished × ℕ × W

-- `Union[str, VerificationCommand]`
pub data CommandLike : Type 0 where
  of_text : String → CommandLike
  of_command : VerificationCommand → CommandLike

abbrev pub command_object : CommandLike → VerificationCommand
command_object (of_text s) = record { command = s; cwd = none; timeout = none }
command_object (of_command c) = c

-- The local variables of the loop.
pub record Progress : Type 0 where
  pub last_cmd_obj : VerificationCommand
  pub results : List CommandResult
  pub combined_stdout : List String
  pub combined_stderr : List String
  pub total_duration : ℕ
  pub final_exit_code : ℤ

-- `if text: texts.append(text)`
abbrev add_text : List String → String → List String
add_text texts s = if truthy (some s) then texts ++ s ∷ [] else texts

abbrev result_entry : VerificationCommand → ℤ → String → String → ℕ → CommandResult
result_entry c code out err dur = record {
  command = c.command;
  exit_code = code;
  stdout = out;
  stderr = err;
  duration = dur;
}

-- A command that ended by itself; the exit code is set on a failure only.
unfoldable pub note_exit : VerificationCommand → ℤ → String → String → ℕ → Progress → Progress
note_exit c code out err dur p = record p {
  last_cmd_obj = c;
  results = p.results ++ result_entry c code out err dur ∷ [];
  combined_stdout = add_text p.combined_stdout out;
  combined_stderr = add_text p.combined_stderr err;
  total_duration = p.total_duration + dur;
  final_exit_code = if is_zero code then p.final_exit_code else code;
}

-- A command that did not end by itself.
unfoldable pub note_error : VerificationCommand → ℤ → String → ℕ → Progress → Progress
note_error c code message dur p = record p {
  last_cmd_obj = c;
  results = p.results ++ result_entry c code "" message dur ∷ [];
  combined_stderr = p.combined_stderr ++ message ∷ [];
  total_duration = p.total_duration + dur;
  final_exit_code = code;
}

abbrev timeout_text : ℕ → String → String
timeout_text seconds command =
    concat_texts ("Timeout after " ∷ show seconds ∷ "s executing '" ∷ command ∷ "'" ∷ [])

abbrev error_text : String → String → String
error_text command exc = concat_texts ("Error executing '" ∷ command ∷ "': " ∷ exc ∷ [])

abbrev given_timeout : Option ℕ → ℕ → ℕ
given_timeout none overall = overall
given_timeout (some t) overall = t

unfoldable pub start : VerificationCommand → Progress
start first = record {
  last_cmd_obj = first;
  results = [];
  combined_stdout = [];
  combined_stderr = [];
  total_duration = 0;
  final_exit_code = pos 0;
}

abbrev pub conclude : Progress → VerificationResult
conclude p = record {
  command = p.last_cmd_obj;
  exit_code = p.final_exit_code;
  stdout = join_lines p.combined_stdout;
  stderr = join_lines p.combined_stderr;
  duration = p.total_duration;
  results = p.results;
}

-- The rest of the loop's body; a failure leaves the loop by `break`, and `next` goes on with it.
after_command :
    {W : Type 0}
    → (Progress → W → Progress × W)
    → VerificationCommand
    → ℕ
    → ℕ
    → Progress
    → W
    → Finished
    → Progress × W
after_command next c limit dur p w (exited code out err) =
    if is_zero code
    then next (note_exit c code out err dur p) w
    else (note_exit c code out err dur p, w)
after_command next c limit dur p w timed_out =
    (note_error c (pos 124) (timeout_text limit c.command) dur p, w)
after_command next c limit dur p w (failed exc) =
    (note_error c (pos 1) (error_text c.command exc) dur p, w)

module _ {W : Type 0} (shell : Shell W) where
  abbrev command_cwd : VerificationCommand → String → W → Option String
  command_cwd c cwd w =
      let dir : String = or_default c.cwd cwd in
      if truthy (some dir) && shell.path_exists dir w then some dir else none

  -- The `for` loop.
  unfoldable pub run_commands : ℕ → String → List CommandLike → Progress → W → Progress × W
  unfolding after_command
  run_commands overall cwd [] p w = (p, w)
  run_commands overall cwd (cmd ∷ cmds) p w =
      let c = command_object cmd in
      let limit = given_timeout c.timeout overall in
      let (outcome, dur, w') = shell.run c.command (command_cwd c cwd w) limit w in
      after_command (run_commands overall cwd cmds) c limit dur p w' outcome

  -- `default` is the timeout of the `Verifier` object.
  unfoldable pub run_verification :
      ℕ → List CommandLike → String → Option ℕ → W → VerificationResult × W
  unfolding run_commands
  run_verification default [] cwd timeout w = (
    record {
      command = record { command = "true"; cwd = none; timeout = none };
      exit_code = pos 0;
      stdout = "";
      stderr = "";
      duration = 0;
      results = [];
    },
    w,
  )
  run_verification default (cmd ∷ cmds) cwd timeout w =
      let (p, w') =
        run_commands (given_timeout timeout default) cwd (cmd ∷ cmds) (start (command_object cmd))
          w in
      (conclude p, w')
