-- ===== src/RateLimit/TokenBucket.antt =====
-- `TokenBucketLimiter` of core/infrastructure/rate_limiting/limiter.py, for whole-numbered
-- capacities, rates and costs. A balance is kept in parts of a token, `interval` parts to each, so
-- that the refill `elapsed / interval * rate` is exact; the floats of the source round it.
pub mod Throughput
pub mod Polling
use self_optimizing_competit.Base.{
  ℕ, ◌+◌, ◌*◌, Bool, true, false, Option, none, some, ◌==◌, if◌then◌else◌,
}
use self_optimizing_competit.Base.Int.{ℤ, pos, ◌+ℤ◌, ◌-ℤ◌, leb_ℤ}
use self_optimizing_competit.RateLimit.Metrics.{
  RateLimitMetrics, no_metrics, tally, rejection_rate_of,
}

pub record TokenBucket : Type 0 where
  pub capacity : ℕ
  pub refill_rate : ℕ
  pub interval : ℕ  -- ticks
  pub tokens : ℤ  -- in parts, `interval` to a token
  pub last_refill : ℕ
  pub metrics : RateLimitMetrics

-- A number of tokens, in parts.
abbrev pub parts : TokenBucket → ℕ → ℤ
parts b n = pos (n * b.interval)

unfoldable pub init : ℕ → ℕ → ℕ → ℕ → TokenBucket
init capacity refill_rate interval now = record {
  capacity = capacity;
  refill_rate = refill_rate;
  interval = interval;
  tokens = pos (capacity * interval);
  last_refill = now;
  metrics = record no_metrics { current_tokens = pos (capacity * interval) };
}

-- Python's `min(a, b)`.
abbrev min_ℤ : ℤ → ℤ → ℤ
min_ℤ a b = if leb_ℤ a b then a else b

-- `_refill` past its division. A clock that was set back takes tokens away.
unfoldable pub refilled : ℕ → TokenBucket → TokenBucket
refilled now b =
    let balance =
      min_ℤ (parts b b.capacity)
        (b.tokens +ℤ (pos (now * b.refill_rate) -ℤ pos (b.last_refill * b.refill_rate))) in
    record b {
      tokens = balance;
      last_refill = now;
      metrics = record b.metrics { current_tokens = balance };
    }

-- `_refill`; `none` is the ZeroDivisionError of an empty interval.
unfoldable pub refill : ℕ → TokenBucket → Option TokenBucket
refill now b = if b.interval == 0 then none else some (refilled now b)

-- The rest of `acquire`, after the refill.
unfoldable pub spend : ℕ → TokenBucket → Bool × TokenBucket
spend cost b =
    if leb_ℤ (parts b cost) b.tokens
    then (true, record b { tokens = b.tokens -ℤ parts b cost; metrics = tally true b.metrics })
    else (false, record b { metrics = tally false b.metrics })

unfoldable pub acquire : ℕ → ℕ → TokenBucket → Option (Bool × TokenBucket)
unfolding refill spend
acquire now cost b = elim (refill now b) [ none ↦ none | some b' ↦ some (spend cost b') ]

-- `current_tokens` is in parts here.
unfoldable pub get_metrics : TokenBucket → RateLimitMetrics
get_metrics b = record b.metrics {
  current_tokens = b.tokens;
  next_reset_time = none;
  rejection_rate = rejection_rate_of b.metrics;
}
