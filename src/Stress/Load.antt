-- ===== src/Stress/Load.antt =====
-- The load of the phases, and the counts of a phase.
use ciwarden.Base.{ℕ, suc, ◌*◌, ◌/◌, ◌≤◌, ◌≡◌, Bool, true, not, List, [], ◌∷◌, if◌then◌else◌, arith}
use native.Mathlib.Nat.{mul-le-mul}
use ciwarden.Stress.{LoadPhase, StressConfig, pct, batch_size, larger, Result, raised, outcome}

abbrev pub is_failure : Result → Bool
is_failure raised = true
is_failure (outcome success status latency was_retry) = not success

-- The longest run of failures; `now` failures precede the list.
abbrev pub longest : ℕ → List Result → ℕ
longest now [] = now
longest now (r ∷ rs) = if is_failure r then longest (suc now) rs else larger now (longest 0 rs)

abbrev pub failures : List Result → ℕ
failures [] = 0
failures (r ∷ rs) = let rest = failures rs in if is_failure r then suc rest else rest

-- A limit of at least 100 requests and a percentage of at least 70 give batches of 50 requests,
-- whichever the phase: the limit and the percentage no longer make a difference.
batch_size-same :
    (config : StressConfig) (phase : LoadPhase)
    → 100 ≤ config.target_rate_limit
    → 70 ≤ pct config phase
    → batch_size config phase ≡ 50
batch_size-same config phase enough most =
    let product = mul-le-mul enough most in
    let quotient : 70 ≤ config.target_rate_limit * pct config phase / 100 =
      omega (arith, product) in
    ground (arith, quotient)
