-- ===== src/Base/Truthy.antt =====
-- Python's truth value of an optional text or number, and its `or`.
use Prim.Native.Nat.{ℕ}
use Prim.Native.String.{String}
use mathlib.Core.Bool.{Bool, false, not}
use mathlib.Core.Option.{Option, none, some}
use text.Mathlib.Text.{◌==◌}
use asc_orchestrator_v.Base.Tests.{if◌then◌else◌, nat_eq}

-- `bool(s)`
abbrev pub truthy : Option String → Bool
truthy none = false
truthy (some s) = not (s == "")

-- `a or b`, where both may be `None`
abbrev pub or_text : Option String → Option String → Option String
or_text a b = if truthy a then a else b

-- `a or b`, where `b` is a text
abbrev pub or_default : Option String → String → String
or_default none b = b
or_default (some s) b = if s == "" then b else s

-- `a or b`, where both may be `None`
abbrev pub or_number : Option ℕ → Option ℕ → Option ℕ
or_number none b = b
or_number (some n) b = if nat_eq n 0 then b else some n

-- `a or b`, where `b` is a number
abbrev pub or_number_default : Option ℕ → ℕ → ℕ
or_number_default none b = b
or_number_default (some n) b = if nat_eq n 0 then b else n
