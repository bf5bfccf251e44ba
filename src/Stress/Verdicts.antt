-- ===== src/Stress/Verdicts.antt =====
-- The criteria of `evaluate_stress_results`.
use ciwarden.Base.{
  ℕ, ◌*◌, ◌<◌, ◌≤◌, String, ◌≡◌, refl, sym, subst, ◌∙◌, ◌↔◌, Bool, true, false, Option, none, some,
  List, [], ◌∷◌, arith, All, Option-cases, inl, inr,
}
use ciwarden.Stress.{LoadPhase, normal, threshold, breach, StressConfig, Ratio, PhaseMetrics}
use ciwarden.Stress.Criteria.{Evaluation, evaluate_phase, evaluate_all, evaluate_stress_results}

-- The quotient is less than k hundredths.
abbrev pub IsBelow : ℕ → Ratio → Type 0
IsBelow k r = 100 * r.numerator < k * r.denominator

abbrev pub IsInTime : StressConfig → Option ℕ → Type 0
IsInTime config none = Unit
IsInTime config (some t) = t ≤ config.recovery_timeout_seconds

-- The criteria by phase: below 1% errors; below 5% errors and no cascade; no retry storm, and a
-- recovery, if one was measured, within the timeout.
abbrev pub MeetsIn : LoadPhase → StressConfig → PhaseMetrics → Type 0
MeetsIn normal config m = IsBelow 1 m.error_rate
MeetsIn threshold config m = IsBelow 5 m.error_rate × (m.cascade_detected ≡ false)
MeetsIn breach config m = (m.retry_storm_detected ≡ false) × IsInTime config m.recovery_time_seconds

abbrev pub Meets : StressConfig → PhaseMetrics → Type 0
Meets config m = MeetsIn m.phase config m

module _ (rate : Ratio → String) (show : ℕ → String) (config : StressConfig) where
  abbrev after : PhaseMetrics → Evaluation → Bool
  after m e = (evaluate_phase rate show config m e).passed

  -- A phase that meets its criteria leaves the verdict as it was, and any other makes it a failure.
  evaluate_phase-Meets : (m : PhaseMetrics) (e : Evaluation) → Meets config m → after m e ≡ e.passed
  evaluate_phase-Meets m e = go m.phase refl
    where
      go : (p : LoadPhase) → m.phase ≡ p → MeetsIn p config m → after m e ≡ e.passed
      go normal h k = rw (h, evaluate_phase) (ground (arith, k))
      go threshold h k = rw (h, evaluate_phase) (ground (arith, k.0, k.1))
      go breach h k = elim (Option-cases m.recovery_time_seconds) [
        | inl n ↦ rw (h, evaluate_phase) (ground (arith, k.0, n))
        | inr (t, n) ↦
            let soon : t ≤ config.recovery_timeout_seconds = subst (IsInTime config) n k.1 in
            rw (h, evaluate_phase) (ground (arith, k.0, n, soon))
      ]

  evaluate_phase-passed :
      (m : PhaseMetrics) (e : Evaluation) → after m e ≡ true → (e.passed ≡ true) × Meets config m
  evaluate_phase-passed m e = go m.phase refl
    where
      go : (p : LoadPhase) → m.phase ≡ p → after m e ≡ true → (e.passed ≡ true) × MeetsIn p config m
      go normal h = rw (h, evaluate_phase) (λ k. (ground (arith, k), ground (arith, k)))
      go threshold h =
          rw (h, evaluate_phase) (λ k. (ground (arith, k), (ground (arith, k), ground (arith, k))))
      go breach h = elim (Option-cases m.recovery_time_seconds) [
        | inl n ↦
            rw (h, evaluate_phase)
              (λ k.
                (ground (arith, k, n), (ground (arith, k, n), subst (IsInTime config) (sym n) tt)))
        | inr (t, n) ↦
            rw (h, evaluate_phase)
              (λ k.
                let soon : t ≤ config.recovery_timeout_seconds = ground (arith, k, n) in
                (
                  ground (arith, k, n),
                  (ground (arith, k, n), subst (IsInTime config) (sym n) soon),
                ))
      ]

  evaluate_all-Meets :
      (phases : List PhaseMetrics) (e : Evaluation)
      → All (Meets config) phases
      → (evaluate_all rate show config phases e).passed ≡ e.passed
  unfolding evaluate_all
  evaluate_all-Meets [] e h = refl
  evaluate_all-Meets (m ∷ phases) e h =
      evaluate_all-Meets phases (evaluate_phase rate show config m e) h.1
      ∙ evaluate_phase-Meets m e h.0

  evaluate_all-passed :
      (phases : List PhaseMetrics) (e : Evaluation)
      → (evaluate_all rate show config phases e).passed ≡ true
      → (e.passed ≡ true) × All (Meets config) phases
  unfolding evaluate_all
  evaluate_all-passed [] e k = (k, tt)
  evaluate_all-passed (m ∷ phases) e k =
      let (now, rest) = evaluate_all-passed phases (evaluate_phase rate show config m e) k in
      let (before, met) = evaluate_phase-passed m e now in (before, (met, rest))

  -- The verdict is a pass exactly when every phase meets its criteria: the normal phase an error rate
  -- below 1%; the threshold phase one below 5% and no cascade; the breach phase no retry storm and,
  -- if a recovery was measured, one within the configured timeout.
  pub evaluate_stress_results-Meets :
      (phases : List PhaseMetrics)
      → ((evaluate_stress_results rate show phases config).0 ≡ true ↔ All (Meets config) phases)
  unfolding evaluate_stress_results
  evaluate_stress_results-Meets phases =
      let start : Evaluation = record { passed = true; reasons = [] } in
      (λ k. (evaluate_all-passed phases start k).1, evaluate_all-Meets phases start)
