-- ===== src/Gates.antt =====
-- gates/base_gate.py and gates/gates.py: what a gate reports, and the registry of gates.
pub mod Registry
pub mod Runner
use Prim.Native.Nat.{ℕ}
use mathlib.Core.Option.{Option}
use ciwarden.Base.{String, Bool}

-- An exit code, which may be negative.
pub data ExitCode : Type 0 where
  code : ℕ → ExitCode
  minus : ℕ → ExitCode

pub data GateStatus : Type 0 where
  pass fail running : GateStatus

pub record GateResult : Type 0 where
  pub gate : String
  pub status : GateStatus
  pub output : String
  pub exit_code : ExitCode
  pub duration_ms : ℕ
