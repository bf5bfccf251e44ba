-- ===== src/Stress/Criteria.antt =====
-- gates/stress_gate.py: the pass criteria of the three phases and the result of the gate.
use ciwarden.Base.{
  ℕ, ◌*◌, String, Bool, true, false, not, none, some, List, [], ◌∷◌, ◌++◌, if◌then◌else◌, leb, ltb,
}
use ciwarden.Base.Text.{join}
use ciwarden.Gates.{code, pass, fail, GateResult}
use ciwarden.Stress.{normal, threshold, breach, StressConfig, Ratio, PhaseMetrics}

-- ratio >= k hundredths
abbrev pub at_least : ℕ → Ratio → Bool
at_least k r = leb (k * r.denominator) (100 * r.numerator)

-- The variables of the evaluation.
pub record Evaluation : Type 0 where
  pub passed : Bool
  pub reasons : List String

abbrev pub fail_if : Bool → String → Evaluation → Evaluation
fail_if test reason e =
    if test then record { passed = false; reasons = e.reasons ++ reason ∷ [] } else e

abbrev pub recovered_late : StressConfig → PhaseMetrics → Bool
recovered_late config m = elim m.recovery_time_seconds [
  | none ↦ false
  | some t ↦ ltb config.recovery_timeout_seconds t
]

-- What one phase adds; `rate` is a ratio as a text, `show` a number.
abbrev pub evaluate_phase :
    (Ratio → String) → (ℕ → String) → StressConfig → PhaseMetrics → Evaluation → Evaluation
evaluate_phase rate show config m e = elim m.phase [
  | normal ↦
      fail_if (at_least 1 m.error_rate)
        (join "" ("NORMAL: error rate " ∷ rate m.error_rate ∷ " >= 1%" ∷ [])) e
  | threshold ↦ fail_if m.cascade_detected "THRESHOLD: cascade failure detected" (
      fail_if (at_least 5 m.error_rate)
        (join "" ("THRESHOLD: error rate " ∷ rate m.error_rate ∷ " >= 5%" ∷ [])) e)
  | breach ↦
      fail_if (recovered_late config m)
        (join "" (
          "BREACH: recovery took "
          ∷ elim m.recovery_time_seconds [ none ↦ "" | some t ↦ show t ]
          ∷ "s > "
          ∷ show config.recovery_timeout_seconds
          ∷ "s limit"
          ∷ []))
        (fail_if m.retry_storm_detected "BREACH: retry storm detected" e)
]

unfoldable pub evaluate_all :
    (Ratio → String) → (ℕ → String) → StressConfig → List PhaseMetrics → Evaluation → Evaluation
evaluate_all rate show config [] e = e
evaluate_all rate show config (m ∷ phases) e =
    evaluate_all rate show config phases (evaluate_phase rate show config m e)

unfoldable pub evaluate_stress_results :
    (Ratio → String) → (ℕ → String) → List PhaseMetrics → StressConfig → Bool × String
evaluate_stress_results rate show phases config =
    let e = evaluate_all rate show config phases (record { passed = true; reasons = [] }) in
    (e.passed, if e.passed then "All stress phases passed" else join "; " e.reasons)

-- `StressGate.run`: what the pipeline did, its report or its error.
pub data Pipeline : Type 0 where
  tested : (overall_pass : Bool) (report : String) → Pipeline
  broken : (error : String) → Pipeline

abbrev pub skipped : String → ℕ → GateResult
skipped name duration = record {
  gate = name;
  status = pass;
  output = "No API integrations detected — stress gate skipped";
  exit_code = code 0;
  duration_ms = duration;
}

unfoldable pub run : String → Bool → Pipeline → ℕ → GateResult
run name has_api (tested overall_pass report) duration =
    if not has_api then skipped name duration else record {
      gate = name;
      status = if overall_pass then pass else fail;
      output = report;
      exit_code = if overall_pass then code 0 else code 1;
      duration_ms = duration;
    }
run name has_api (broken error) duration = if not has_api then skipped name duration else record {
  gate = name;
  status = fail;
  output = join "" ("Stress gate internal error: " ∷ error ∷ []);
  exit_code = code 2;
  duration_ms = duration;
}
