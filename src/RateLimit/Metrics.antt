-- ===== src/RateLimit/Metrics.antt =====
-- `RateLimitMetrics`, and the clock unit. Clock readings are whole microseconds, which is exact for
-- `datetime`, and stands for the float that `time.time()` returns.
use self_optimizing_competit.Base.{ℕ, ◌+◌, ◌≡◌, Bool, Option, none, ltb, if◌then◌else◌}
use self_optimizing_competit.Base.Int.{ℤ, pos}

-- Ticks in a second.
abbrev pub second : ℕ
second = 1000000

pub record RateLimitMetrics : Type 0 where
  pub total_requests : ℕ
  pub allowed_requests : ℕ
  pub rejected_requests : ℕ
  pub current_tokens : ℤ
  pub next_reset_time : Option ℤ
  -- numerator and denominator of the float
  pub rejection_rate : ℕ × ℕ

-- The dataclass defaults.
abbrev pub no_metrics : RateLimitMetrics
no_metrics = record {
  total_requests = 0;
  allowed_requests = 0;
  rejected_requests = 0;
  current_tokens = pos 0;
  next_reset_time = none;
  rejection_rate = (0, 1);
}

-- `total_requests += 1`, and the counter of the outcome.
abbrev pub tally : Bool → RateLimitMetrics → RateLimitMetrics
tally allowed m = record m {
  total_requests = m.total_requests + 1;
  allowed_requests = if allowed then m.allowed_requests + 1 else m.allowed_requests;
  rejected_requests = if allowed then m.rejected_requests else m.rejected_requests + 1;
}

-- `rejected / total if total > 0 else 0.0`
abbrev pub rejection_rate_of : RateLimitMetrics → ℕ × ℕ
rejection_rate_of m =
    if ltb 0 m.total_requests then (m.rejected_requests, m.total_requests) else (0, 1)

-- Every request is counted once, as allowed or as rejected.
abbrev pub IsBalanced : RateLimitMetrics → Type 0
IsBalanced m = m.total_requests ≡ m.allowed_requests + m.rejected_requests
