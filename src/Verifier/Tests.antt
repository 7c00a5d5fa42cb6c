-- ===== src/Verifier/Tests.antt =====
-- The theorem on src/asc/verifier.py at three commands, of which the second fails.
use asc_orchestrator_v.Base.{none, [], ◌∷◌}
use asc_orchestrator_v.Verifier.{of_text, run_verification}
use asc_orchestrator_v.Verifier.Ran.{Ran}
use asc_orchestrator_v.Verifier.FailFast.{Verdict, run_verification-Verdict}
use asc_orchestrator_v.Fixtures.{shell_of}

run_verification-Verdict_example :
    let cmds = of_text "true" ∷ of_text "false" ∷ of_text "true" ∷ [] in
    let (vr, w') = run_verification shell_of 300 cmds "." none 0 in
    Ran shell_of 300 "." cmds 0 vr.results vr.exit_code w' × Verdict 3 vr.results vr.exit_code
run_verification-Verdict_example =
    run_verification-Verdict shell_of 300 (of_text "true" ∷ of_text "false" ∷ of_text "true" ∷ [])
      "." none 0
