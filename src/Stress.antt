-- ===== src/Stress.antt =====
-- gates/stress_gate.py: the load test of API integrations. Times are in milliseconds.
use ciwarden.Base.{
  ℕ, zero, suc, ◌+◌, ◌-◌, ◌*◌, ◌/◌, String, Bool, true, false, ◌&&◌, ◌||◌, not, Option, none, some,
  List, [], ◌∷◌, ◌++◌, if◌then◌else◌, eqb, leb, ltb, length,
}
use ciwarden.Base.Sort.{sort}
use ciwarden.Base.Text.{join}
pub mod RateLimit
pub mod Load
pub mod Criteria
pub mod Verdicts

pub data LoadPhase : Type 0 where
  normal threshold breach : LoadPhase

-- The percentages are whole; the recovery timeout is in seconds, as in the source.
pub record StressConfig : Type 0 where
  pub target_rate_limit : ℕ
  pub normal_pct : ℕ
  pub threshold_pct : ℕ
  pub breach_pct : ℕ
  pub recovery_timeout_seconds : ℕ

abbrev pub default_config : StressConfig
default_config = record {
  target_rate_limit = 100;
  normal_pct = 70;
  threshold_pct = 100;
  breach_pct = 120;
  recovery_timeout_seconds = 30;
}

-- The mock API.
pub record RateLimitState : Type 0 where
  pub limit : ℕ
  pub remaining : ℕ
  pub window : ℕ
  pub reset_at : ℕ

abbrev pub new_state : ℕ → ℕ → ℕ → RateLimitState
new_state limit window now = record {
  limit = limit;
  remaining = limit;
  window = window;
  reset_at = now + window;
}

abbrev pub reset_if_expired : ℕ → RateLimitState → RateLimitState
reset_if_expired now s =
    if leb s.reset_at now then record s { remaining = s.limit; reset_at = now + s.window } else s

-- The status, the headers X-RateLimit-Limit, -Remaining and -Reset, and Retry-After.
pub record Response : Type 0 where
  pub status_code : ℕ
  pub limit_header : ℕ
  pub remaining_header : ℕ
  pub reset_header : ℕ
  pub retry_after : Option ℕ

abbrev pub larger : ℕ → ℕ → ℕ
larger a b = if ltb a b then b else a

abbrev pub smaller : ℕ → ℕ → ℕ
smaller a b = if ltb b a then b else a

-- After the reset; `later` is the second reading of the clock.
abbrev pub respond : ℕ → RateLimitState → Response × RateLimitState
respond later s =
    if eqb s.remaining 0
    then (
      record {
        status_code = 429;
        limit_header = s.limit;
        remaining_header = s.remaining;
        reset_header = s.reset_at / 1000;
        retry_after = some (larger 1 ((s.reset_at - later) / 1000));
      },
      s,
    )
    else (
      record {
        status_code = 200;
        limit_header = s.limit;
        remaining_header = s.remaining;
        reset_header = s.reset_at / 1000;
        retry_after = none;
      },
      record s { remaining = s.remaining - 1 },
    )

unfoldable pub process_request : ℕ → ℕ → RateLimitState → Response × RateLimitState
process_request now later state = respond later (reset_if_expired now state)

-- The load runner.
abbrev pub pct : StressConfig → LoadPhase → ℕ
pct config normal = config.normal_pct
pct config threshold = config.threshold_pct
pct config breach = config.breach_pct

abbrev pub target_rps : StressConfig → LoadPhase → ℕ
target_rps config phase = larger 1 (config.target_rate_limit * pct config phase / 100)

abbrev pub batch_size : StressConfig → LoadPhase → ℕ
batch_size config phase = smaller (target_rps config phase) 50

-- What a request gives: an exception, or an outcome.
pub data Result : Type 0 where
  raised : Result
  outcome : (success : Bool) (status_code latency : ℕ) (was_retry : Bool) → Result

-- What the client does with a request: a response, a timeout, or another error.
pub data Reply : Type 0 where
  answered : (status_code latency : ℕ) → Reply
  timed_out : (latency : ℕ) → Reply
  errored : Reply

-- `_send_request`, and `gather`, which turns the other errors into values.
abbrev pub send_request : Reply → Result
send_request (answered status latency) = outcome (eqb status 200) status latency false
send_request (timed_out latency) = outcome false 0 latency false
send_request errored = raised

pub record Counters : Type 0 where
  pub succeeded : ℕ
  pub failed : ℕ
  pub timeouts : ℕ
  pub latencies : List ℕ
  pub retry_count : ℕ
  pub consecutive_failures : ℕ
  pub max_consecutive_failures : ℕ

abbrev pub no_counts : Counters
no_counts = record {
  succeeded = 0;
  failed = 0;
  timeouts = 0;
  latencies = [];
  retry_count = 0;
  consecutive_failures = 0;
  max_consecutive_failures = 0;
}

abbrev pub tally : Result → Counters → Counters
tally raised c = record c {
  failed = c.failed + 1;
  timeouts = c.timeouts + 1;
  consecutive_failures = c.consecutive_failures + 1;
}
tally (outcome success status latency was_retry) c =
    if success
    then record c {
      latencies = c.latencies ++ latency ∷ [];
      succeeded = c.succeeded + 1;
      consecutive_failures = 0;
    }
    else record c {
      latencies = c.latencies ++ latency ∷ [];
      failed = c.failed + 1;
      consecutive_failures = c.consecutive_failures + 1;
      retry_count = if was_retry then c.retry_count + 1 else c.retry_count;
    }

abbrev pub count_one : Result → Counters → Counters
count_one r c =
    let t = tally r c in
    record t { max_consecutive_failures = larger t.max_consecutive_failures t.consecutive_failures }

-- The results of all batches, in order.
unfoldable pub count_all : List Result → Counters → Counters
count_all [] c = c
count_all (r ∷ rs) c = count_all rs (count_one r c)

-- A float that is a quotient; the denominator is not 0.
pub record Ratio : Type 0 where
  pub numerator : ℕ
  pub denominator : ℕ

-- a / b if b > 0 else 0.0
abbrev pub ratio : ℕ → ℕ → Ratio
ratio a b =
    if ltb 0 b
    then record { numerator = a; denominator = b }
    else record { numerator = 0; denominator = 1 }

abbrev pub sum : List ℕ → ℕ
sum [] = 0
sum (x ∷ xs) = x + sum xs

-- The recovery time is in whole seconds.
pub record PhaseMetrics : Type 0 where
  pub phase : LoadPhase
  pub requests_sent : ℕ
  pub requests_succeeded : ℕ
  pub requests_failed : ℕ
  pub error_rate : Ratio
  pub timeout_count : ℕ
  pub timeout_rate : Ratio
  pub retry_storm_detected : Bool
  pub cascade_detected : Bool
  pub avg_latency_ms : Ratio
  pub p99_latency_ms : ℕ
  pub recovery_time_seconds : Option ℕ

abbrev pub nth_or_zero : ℕ → List ℕ → ℕ
nth_or_zero n [] = 0
nth_or_zero zero (x ∷ xs) = x
nth_or_zero (suc n) (x ∷ xs) = nth_or_zero n xs

abbrev pub p99 : List ℕ → ℕ
p99 latencies =
    nth_or_zero (smaller (length latencies * 99 / 100) (length latencies - 1)) (sort leb latencies)

-- `_measure_recovery` is made only in the breach phase.
abbrev pub recovery_of : LoadPhase → ℕ → Option ℕ
recovery_of breach recovery = some recovery
recovery_of normal recovery = none
recovery_of threshold recovery = none

abbrev pub results : List Reply → List Result
results [] = []
results (r ∷ replies) = send_request r ∷ results replies

unfoldable pub run_phase : LoadPhase → List Reply → ℕ → PhaseMetrics
run_phase phase replies recovery =
    let c = count_all (results replies) no_counts in
    let total = c.succeeded + c.failed in
    record {
      phase = phase;
      requests_sent = total;
      requests_succeeded = c.succeeded;
      requests_failed = c.failed;
      error_rate = ratio c.failed total;
      timeout_count = c.timeouts;
      timeout_rate = ratio c.timeouts total;
      retry_storm_detected = if ltb 0 total then ltb total (2 * c.retry_count) else false;
      cascade_detected = ltb 10 c.max_consecutive_failures;
      avg_latency_ms = ratio (sum c.latencies) (length c.latencies);
      p99_latency_ms = p99 c.latencies;
      recovery_time_seconds = recovery_of phase recovery;
    }

-- One attempt of `_measure_recovery`: the time since the start before it and after it, in seconds,
-- and whether it got a 200.
pub record Attempt : Type 0 where
  pub before : ℕ
  pub after : ℕ
  pub is_ok : Bool

unfoldable pub measure_recovery : ℕ → List Attempt → ℕ
measure_recovery timeout [] = timeout
measure_recovery timeout (a ∷ attempts) =
    let rest = measure_recovery timeout attempts in
    if ltb a.before timeout then (if a.is_ok then a.after else rest) else timeout
