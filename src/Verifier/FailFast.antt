-- ===== src/Verifier/FailFast.antt =====
-- What the aggregate result of `run_verification` says of the single commands.
use asc_orchestrator_v.Base.{
  suc, ℕ, ◌+◌, ◌≤◌, String, ◌≡◌, refl, true, false, Option, List, [], ◌∷◌, ◌++◌, ◌⊎◌, inl, inr, All,
  arith, length, Bool-cases, sym, subst,
}
use asc_orchestrator_v.Models.{VerificationCommand, CommandResult}
use asc_orchestrator_v.Models.ExitCode.{ℤ, is_zero}
use asc_orchestrator_v.Verifier.Ran.{Ran, all_ran, run_commands-RanFrom}
use asc_orchestrator_v.Verifier.{
  Shell, Finished, exited, timed_out, failed, CommandLike, command_object, Progress, note_exit,
  note_error, start, run_commands, after_command, command_cwd, given_timeout, run_verification,
}

abbrev pub Passed : CommandResult → Type 0
Passed r = is_zero r.exit_code ≡ true

-- Every command ran and ended with 0.
pub record AllPassed (commands : ℕ) (results : List CommandResult) (exit : ℤ) : Type 0 where
  pub code : is_zero exit ≡ true
  pub each : All Passed results
  pub ran : length results ≡ commands

-- The commands up to the last that ran ended with 0, and the last one failed with this code.
pub record LastFailed (commands : ℕ) (results : List CommandResult) (exit : ℤ) : Type 0 where
  pub before : List CommandResult
  pub last : CommandResult
  pub split : results ≡ before ++ last ∷ []
  pub each : All Passed before
  pub failed : is_zero last.exit_code ≡ false
  pub code : last.exit_code ≡ exit
  pub ran : length results ≤ commands

abbrev pub Verdict : ℕ → List CommandResult → ℤ → Type 0
Verdict commands results exit = AllPassed commands results exit ⊎ LastFailed commands results exit

All-append :
    (P : CommandResult → Type 0) (xs : List CommandResult) (y : CommandResult)
    → All P xs
    → P y
    → All P (xs ++ y ∷ [])
All-append P [] y h p = (p, tt)
All-append P (x ∷ xs) y h p = (h.0, All-append P xs y h.1 p)

length_snoc : (xs : List CommandResult) (y : CommandResult) → length (xs ++ y ∷ []) ≡ length xs + 1
length_snoc [] y = refl
length_snoc (x ∷ xs) y = omega (arith, length_snoc xs y)

-- The state of the loop while no command has failed.
record Running (done : ℕ) (p : Progress) : Type 0 where
  code : is_zero p.final_exit_code ≡ true
  each : All Passed p.results
  ran : length p.results ≡ done

module _ (c : VerificationCommand) (dur : ℕ) {done : ℕ} {p : Progress} (r : Running done p) where
  passed :
      (z : ℤ) (out err : String)
      → is_zero z ≡ true
      → Running (done + 1) (note_exit c z out err dur p)
  unfolding note_exit
  passed z out err e = record {
    code = rw e (r.code);
    each = All-append Passed p.results _ r.each e;
    ran = omega (arith, length_snoc p.results _, r.ran);
  }

  exit_failed :
      (z : ℤ) (out err : String) (total : ℕ)
      → is_zero z ≡ false
      → done + 1 ≤ total
      → LastFailed total
          (note_exit c z out err dur p).results
          (note_exit c z out err dur p).final_exit_code
  unfolding note_exit
  exit_failed z out err total e le = rw e (record {
    before = p.results;
    last = _;
    split = refl;
    each = r.each;
    failed = e;
    code = refl;
    ran = omega (arith, length_snoc p.results _, r.ran);
  })

  error_failed :
      (z : ℤ) (message : String) (total : ℕ)
      → is_zero z ≡ false
      → done + 1 ≤ total
      → LastFailed total
          (note_error c z message dur p).results
          (note_error c z message dur p).final_exit_code
  unfolding note_error
  error_failed z message total e le = record {
    before = p.results;
    last = _;
    split = refl;
    each = r.each;
    failed = e;
    code = refl;
    ran = omega (arith, length_snoc p.results _, r.ran);
  }

abbrev VerdictOf : {W : Type 0} → ℕ → Progress × W → Type 0
VerdictOf total (q, w) = Verdict total q.results q.final_exit_code

after_command-Verdict :
    {W : Type 0} (next : Progress → W → Progress × W) (c : VerificationCommand)
    (limit dur done total : ℕ) (p : Progress) (w : W) (outcome : Finished)
    → Running done p
    → done + 1 ≤ total
    → ((q : Progress) → Running (done + 1) q → VerdictOf total (next q w))
    → VerdictOf total (after_command next c limit dur p w outcome)
unfolding after_command
after_command-Verdict next c limit dur done total p w (exited code out err) r le go =
    elim (Bool-cases (is_zero code)) [
      | inl e ↦
          rw (e, after_command)
            (go (note_exit c code out err dur p) (passed c dur r code out err e))
      | inr e ↦ rw (e, after_command) (inr (exit_failed c dur r code out err total e le))
    ]
after_command-Verdict next c limit dur done total p w timed_out r le go =
    inr (error_failed c dur r _ _ total refl le)
after_command-Verdict next c limit dur done total p w (failed exc) r le go =
    inr (error_failed c dur r _ _ total refl le)

module _ {W : Type 0} (shell : Shell W) (overall : ℕ) (cwd : String) where
  run_commands-Verdict :
      (cmds : List CommandLike) (done total : ℕ) (p : Progress) (w : W)
      → done + length cmds ≡ total
      → Running done p
      → VerdictOf total (run_commands shell overall cwd cmds p w)
  unfolding run_commands
  run_commands-Verdict [] done total p w e r =
      inl (record { code = r.code; each = r.each; ran = omega (arith, r.ran) })
  run_commands-Verdict (cmd ∷ cmds) done total p w e r =
      let c = command_object cmd in
      let limit = given_timeout c.timeout overall in
      let (outcome, dur, w') = shell.run c.command (command_cwd shell c cwd w) limit w in
      after_command-Verdict (run_commands shell overall cwd cmds) c limit dur done total p w'
        outcome r (omega arith)
        (λ q rq. run_commands-Verdict cmds (done + 1) total q w' (omega arith) rq)

-- The processes of the commands are run one after the other, each in the world that the one before
-- left; the results are theirs, one for one, and the first that fails is the last that is run. The
-- aggregate exit code is 0 exactly when every command was run and ended with 0; otherwise it is
-- the code of the last result, before which every result is 0.
pub run_verification-Verdict :
    {W : Type 0} (shell : Shell W) (default : ℕ) (cmds : List CommandLike) (cwd : String)
    (timeout : Option ℕ) (w : W)
    → let (vr, w') = run_verification shell default cmds cwd timeout w in
      Ran shell (given_timeout timeout default) cwd cmds w vr.results vr.exit_code w'
      × Verdict (length cmds) vr.results vr.exit_code
unfolding run_verification start
run_verification-Verdict shell default [] cwd timeout w =
    (all_ran, inl (record { code = refl; each = tt; ran = refl }))
run_verification-Verdict shell default (cmd ∷ cmds) cwd timeout w =
    let first = start (command_object cmd) in
    let (results, split, ran) =
      run_commands-RanFrom shell (given_timeout timeout default) cwd (cmd ∷ cmds) first w refl in
    (
      subst
          (λ rs.
            Ran shell (given_timeout timeout default) cwd (cmd ∷ cmds) w rs
              (run_commands shell (given_timeout timeout default) cwd (cmd ∷ cmds) first
                w).0.final_exit_code
              (run_commands shell (given_timeout timeout default) cwd (cmd ∷ cmds) first w).1)
          (sym split) ran,
      run_commands-Verdict shell _ cwd (cmd ∷ cmds) 0 (suc (length cmds)) _ w (omega arith)
          (record { code = refl; each = tt; ran = refl }),
    )
