-- ===== src/Examples/Loads.antt =====
-- Requests and phases, of gates/stress_gate.py.
use ciwarden.Base.{◌+◌, ◌*◌, ◌≤◌, ◌≡◌, List, [], ◌∷◌, All, ◌↔◌, true}
use ciwarden.Stress.{
  normal, breach, default_config, RateLimitState, new_state, Reply, answered, timed_out, errored,
  run_phase, PhaseMetrics,
}
use ciwarden.Stress.Criteria.{evaluate_stress_results}
use ciwarden.Stress.RateLimit.{serve, windows, serve-bound}
use ciwarden.Stress.Verdicts.{Meets, evaluate_stress_results-Meets}

abbrev mock : RateLimitState
mock = new_state 2 1000 0

serve-bound_example :
    (serve (10 ∷ 20 ∷ 1500 ∷ []) mock).0 ≤ 2 + windows (10 ∷ 20 ∷ 1500 ∷ []) mock * 2
serve-bound_example = serve-bound (10 ∷ 20 ∷ 1500 ∷ []) mock

abbrev replies : List Reply
replies = answered 200 12 ∷ answered 429 5 ∷ timed_out 5000 ∷ errored ∷ []

abbrev phases : List PhaseMetrics
phases = run_phase normal replies 0 ∷ run_phase breach replies 2 ∷ []

evaluate_stress_results-Meets_example :
    (evaluate_stress_results (λ r. "rate") (λ n. "n") phases default_config).0 ≡ true
    ↔ All (Meets default_config) phases
evaluate_stress_results-Meets_example =
    evaluate_stress_results-Meets (λ r. "rate") (λ n. "n") default_config phases
