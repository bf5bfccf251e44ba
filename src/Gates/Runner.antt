-- ===== src/Gates/Runner.antt =====
-- gates/base_gate.py: the run of a gate that is a command.
use ciwarden.Base.{ℕ, ◌-◌, String, Bool, if◌then◌else◌, eqb}
use ciwarden.Gates.{ExitCode, code, minus, pass, fail, GateResult}
use Prim.Native.String.{◌++◌}

-- What `subprocess.run` did.
pub data Completed : Type 0 where
  finished : (returncode : ExitCode) (stdout stderr : String) → Completed
  not_found : (error : String) → Completed

abbrev is_zero : ExitCode → Bool
is_zero (code n) = eqb n 0
is_zero (minus n) = eqb n 0

-- The two clock readings, in milliseconds, and the outcome of the command are arguments.
pub run : String → ℕ → ℕ → Completed → GateResult
run name start end (finished returncode stdout stderr) = record {
  gate = name;
  status = if is_zero returncode then pass else fail;
  output = stdout ++ stderr;
  exit_code = returncode;
  duration_ms = end - start;
}
run name start end (not_found error) = record {
  gate = name;
  status = fail;
  output = "Tool not found: " ++ error ++ ". Install required dependencies.";
  exit_code = code 127;
  duration_ms = end - start;
}
