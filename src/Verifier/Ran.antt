-- ===== src/Verifier/Ran.antt =====
-- Which processes `run_verification` has run, and what each left in the results.
use asc_orchestrator_v.Base.{
  ℕ, String, ◌≡◌, refl, true, false, List, [], ◌∷◌, ◌++◌, inl, inr, Bool-cases, ◌∙◌, sym, subst, ap,
}
use asc_orchestrator_v.Models.{VerificationCommand, CommandResult}
use asc_orchestrator_v.Models.ExitCode.{ℤ, pos, is_zero}
use asc_orchestrator_v.Verifier.{
  timeout_text, error_text, Shell, Finished, exited, timed_out, failed, CommandLike, command_object,
  Progress, note_exit, note_error, run_commands, after_command, command_cwd, given_timeout,
}

append_nil : (xs : List CommandResult) → xs ++ [] ≡ xs
append_nil [] = refl
append_nil (x ∷ xs) = rw (append_nil xs)

append_assoc : (xs ys zs : List CommandResult) → (xs ++ ys) ++ zs ≡ xs ++ (ys ++ zs)
append_assoc [] ys zs = refl
append_assoc (x ∷ xs) ys zs = rw (append_assoc xs ys zs)

-- What the shell is asked to run for a command, and the entry of a process that came to `code`.
module _ {W : Type 0} (shell : Shell W) (overall : ℕ) (cwd : String) where
  abbrev pub run_command : VerificationCommand → W → Finished × ℕ × W
  run_command c w =
      shell.run c.command (command_cwd shell c cwd w) (given_timeout c.timeout overall) w

  abbrev pub entry : VerificationCommand → ℤ → String → String → ℕ → CommandResult
  entry c z out err dur = record {
    command = c.command;
    exit_code = z;
    stdout = out;
    stderr = err;
    duration = dur;
  }

  -- The entry and the exit code of a process, where the code is not 0.
  pub data Fails (c : VerificationCommand) (dur : ℕ) : Finished → ℤ → CommandResult → Type 0 where
    by_exit :
        {z : ℤ} {out err : String}
        → is_zero z ≡ false
        → Fails c dur (exited z out err) z (entry c z out err dur)
    by_timeout :
        Fails c dur timed_out
          (pos 124)
          (entry c (pos 124) "" (timeout_text (given_timeout c.timeout overall) c.command) dur)
    by_error :
        {exc : String}
        → Fails c dur (failed exc) (pos 1) (entry c (pos 1) "" (error_text c.command exc) dur)

  -- `Ran cmds w results exit w'`: from the world `w` the processes of the commands are run one
  -- after the other, each entry is that of its command's process, the first failure is the last
  -- process, and `exit` is its code, or 0 where none failed.
  pub data Ran : List CommandLike → W → List CommandResult → ℤ → W → Type 0 where
    all_ran : {w : W} → Ran [] w [] (pos 0) w
    proceeds :
        {cmd : CommandLike} {cmds : List CommandLike} {w w' w'' : W} {z exit : ℤ} {out err : String}
        {dur : ℕ} {results : List CommandResult}
        → run_command (command_object cmd) w ≡ (exited z out err, dur, w')
        → is_zero z ≡ true
        → Ran cmds w' results exit w''
        → Ran (cmd ∷ cmds) w (entry (command_object cmd) z out err dur ∷ results) exit w''
    stops :
        {cmd : CommandLike} {cmds : List CommandLike} {w w' : W} {outcome : Finished} {dur : ℕ}
        {exit : ℤ} {result : CommandResult}
        → run_command (command_object cmd) w ≡ (outcome, dur, w')
        → Fails (command_object cmd) dur outcome exit result
        → Ran (cmd ∷ cmds) w (result ∷ []) exit w'

  -- The state at the end of the loop, for a state `p` at its start.
  abbrev pub RanFrom : Progress → List CommandLike → W → Progress × W → Type 0
  RanFrom p cmds w (q, w') =
      (results : List CommandResult) × (q.results ≡ p.results ++ results)
      × Ran cmds w results q.final_exit_code w'

  module _ (c : VerificationCommand) (z : ℤ) (out err : String) (dur : ℕ) (p : Progress) where
    note_exit_results :
        (note_exit c z out err dur p).results ≡ p.results ++ entry c z out err dur ∷ []
    unfolding note_exit
    note_exit_results = refl

    note_exit_passed :
        is_zero z ≡ true → (note_exit c z out err dur p).final_exit_code ≡ p.final_exit_code
    unfolding note_exit
    note_exit_passed e = rw (e, note_exit) refl

    note_exit_failed : is_zero z ≡ false → (note_exit c z out err dur p).final_exit_code ≡ z
    unfolding note_exit
    note_exit_failed e = rw (e, note_exit) refl

  after_command-RanFrom :
      (cmd : CommandLike) (cmds : List CommandLike) (p : Progress) (w w' : W) (outcome : Finished)
      (dur : ℕ)
      → p.final_exit_code ≡ pos 0
      → run_command (command_object cmd) w ≡ (outcome, dur, w')
      → ((q : Progress)
          → q.final_exit_code ≡ pos 0
          → RanFrom q cmds w' (run_commands shell overall cwd cmds q w'))
      → RanFrom p (cmd ∷ cmds) w (
          after_command
            (run_commands shell overall cwd cmds)
            (command_object cmd)
            (given_timeout (command_object cmd).timeout overall)
            dur
            p
            w'
            outcome)
  unfolding after_command note_error
  after_command-RanFrom cmd cmds p w w' (exited z out err) dur z0 ran rest =
      elim (Bool-cases (is_zero z)) [
        | inl e ↦
            let c = command_object cmd in
            let (results, split, more) =
              rest (note_exit c z out err dur p) (note_exit_passed c z out err dur p e ∙ z0) in
            rw (e, after_command)
              (
                entry c z out err dur ∷ results,
                split
                    ∙ (ap (λ rs. rs ++ results) (note_exit_results c z out err dur p)
                        ∙ append_assoc p.results (entry c z out err dur ∷ []) results),
                proceeds ran e more,
              )
        | inr e ↦
            let c = command_object cmd in
            rw (e, after_command)
              (
                entry c z out err dur ∷ [],
                note_exit_results c z out err dur p,
                subst (λ y. Ran (cmd ∷ cmds) w (entry c z out err dur ∷ []) y w')
                    (sym (note_exit_failed c z out err dur p e)) (stops ran (by_exit e)),
              )
      ]
  after_command-RanFrom cmd cmds p w w' timed_out dur z0 ran rest = (_, refl, stops ran by_timeout)
  after_command-RanFrom cmd cmds p w w' (failed exc) dur z0 ran rest = (_, refl, stops ran by_error)

  pub run_commands-RanFrom :
      (cmds : List CommandLike) (p : Progress) (w : W)
      → p.final_exit_code ≡ pos 0
      → RanFrom p cmds w (run_commands shell overall cwd cmds p w)
  unfolding run_commands
  run_commands-RanFrom [] p w z0 =
      ([], sym (append_nil p.results), subst (λ z. Ran [] w [] z w) (sym z0) all_ran)
  run_commands-RanFrom (cmd ∷ cmds) p w z0 =
      let (outcome, dur, w') = run_command (command_object cmd) w in
      after_command-RanFrom cmd cmds p w w' outcome dur z0 refl
        (λ q zq. run_commands-RanFrom cmds q w' zq)
