-- ===== src/RateLimit/SlidingWindow.antt =====
-- `SlidingWindowLimiter` of core/infrastructure/rate_limiting/limiter.py. The times of the granted
-- requests are kept, and those that have left the window are dropped at the next request.
pub mod History
use self_optimizing_competit.Base.{
  ℕ, ◌+◌, ◌*◌, Bool, true, false, Option, none, some, List, [], ◌∷◌, ◌++◌, ltb, length, keep,
  if◌then◌else◌,
}
use self_optimizing_competit.Base.Int.{ℤ, pos, ◌-ℤ◌}
use self_optimizing_competit.RateLimit.Metrics.{
  second, RateLimitMetrics, no_metrics, tally, rejection_rate_of,
}

pub record SlidingWindow : Type 0 where
  pub max_requests : ℕ
  pub window_seconds : ℕ
  pub request_times : List ℕ
  pub metrics : RateLimitMetrics

unfoldable pub init : ℕ → ℕ → SlidingWindow
init max_requests window_seconds = record {
  max_requests = max_requests;
  window_seconds = window_seconds;
  request_times = [];
  metrics = no_metrics;
}

-- `t > now - window_seconds`, without the subtraction
abbrev pub is_live : SlidingWindow → ℕ → ℕ → Bool
is_live w now t = ltb now (t + w.window_seconds * second)

-- What `acquire` does with the times that are still live.
unfoldable pub admit : ℕ → List ℕ → SlidingWindow → Bool × SlidingWindow
admit now live w =
    if ltb (length live) w.max_requests
    then (true, record w { request_times = live ++ (now ∷ []); metrics = tally true w.metrics })
    else (false, record w { request_times = live; metrics = tally false w.metrics })

unfoldable pub acquire : ℕ → SlidingWindow → Bool × SlidingWindow
unfolding admit
acquire now w = admit now (keep (is_live w now) w.request_times) w

-- `utcnow` is the clock's reading for `next_reset_time`.
unfoldable pub get_metrics : ℕ → SlidingWindow → RateLimitMetrics
get_metrics utcnow w = record w.metrics {
  current_tokens = pos w.max_requests -ℤ pos (length w.request_times);
  next_reset_time = elim w.request_times [
    | [] ↦ none
    | _ ∷ _ ↦ some (pos (utcnow + w.window_seconds * second))
  ];
  rejection_rate = rejection_rate_of w.metrics;
}
