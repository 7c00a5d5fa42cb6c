-- ===== src/Models/ExitCode.antt =====
-- The exit code of a process: an integer, negative where a signal ended the process.
use asc_orchestrator_v.Base.{ℕ, zero, Bool, true, false}

-- `negsuc n` is -(n + 1).
pub data ℤ : Type 0 where
  pos : ℕ → ℤ
  negsuc : ℕ → ℤ

-- `code == 0`
abbrev pub is_zero : ℤ → Bool
is_zero (pos zero) = true
is_zero _ = false
