-- ===== src/RateLimit/FixedWindow.antt =====
-- `FixedWindowLimiter` of core/infrastructure/rate_limiting/limiter.py: one counter, set back to
-- zero by the first request after the window has passed.
pub mod Bounds
use self_optimizing_competit.Base.{ℕ, ◌+◌, ◌*◌, Bool, true, false, some, ltb, leb, if◌then◌else◌}
use self_optimizing_competit.Base.Int.{pos, ◌-ℤ◌, ◌+ℤ◌}
use self_optimizing_competit.RateLimit.Metrics.{
  second, RateLimitMetrics, no_metrics, tally, rejection_rate_of,
}

pub record FixedWindow : Type 0 where
  pub max_requests : ℕ
  pub window_seconds : ℕ
  pub request_count : ℕ
  pub window_start : ℕ
  pub metrics : RateLimitMetrics

unfoldable pub init : ℕ → ℕ → ℕ → FixedWindow
init max_requests window_seconds now = record {
  max_requests = max_requests;
  window_seconds = window_seconds;
  request_count = 0;
  window_start = now;
  metrics = no_metrics;
}

-- The first `if` of `acquire`: `now - window_start >= window_seconds`, without the subtraction.
unfoldable pub roll : ℕ → FixedWindow → FixedWindow
roll now w =
    if leb (w.window_start + w.window_seconds * second) now
    then record w { request_count = 0; window_start = now }
    else w

-- The second.
unfoldable pub admit : FixedWindow → Bool × FixedWindow
admit w =
    if ltb w.request_count w.max_requests
    then (true, record w { request_count = w.request_count + 1; metrics = tally true w.metrics })
    else (false, record w { metrics = tally false w.metrics })

unfoldable pub acquire : ℕ → FixedWindow → Bool × FixedWindow
unfolding roll admit
acquire now w = admit (roll now w)

-- `now` is read from `time.time()`, `utcnow` from `datetime.utcnow()`.
unfoldable pub get_metrics : ℕ → ℕ → FixedWindow → RateLimitMetrics
get_metrics now utcnow w = record w.metrics {
  current_tokens = pos w.max_requests -ℤ pos w.request_count;
  next_reset_time =
      some (pos utcnow +ℤ (pos (w.window_seconds * second + w.window_start) -ℤ pos now));
  rejection_rate = rejection_rate_of w.metrics;
}
