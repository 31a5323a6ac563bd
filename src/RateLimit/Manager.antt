-- ===== src/RateLimit/Manager.antt =====
-- `RateLimitManager` of core/infrastructure/rate_limiting/limiter.py: a token bucket for the second
-- and a sliding window for the minute, for each endpoint. `check_limit` reads `time.time()` once for
-- each limiter and `datetime.utcnow()` for the reset time; the readings are arguments. The header
-- texts are left as the numbers that they print, and the reset time as the moment.
pub mod Checks
use Prim.Native.String.{◌++◌ as join}
use self_optimizing_competit.Base.{ℕ, Bool, ◌&&◌, true, Option, none, some, String, [], ◌∷◌}
use self_optimizing_competit.Base.Int.{ℤ, pos, ◌-ℤ◌}
use self_optimizing_competit.Base.Dict.{Dict, lookup, insert}
use self_optimizing_competit.RateLimit.Metrics.{second, RateLimitMetrics}
use self_optimizing_competit.RateLimit.TokenBucket
use self_optimizing_competit.RateLimit.TokenBucket.{TokenBucket}
use self_optimizing_competit.RateLimit.SlidingWindow
use self_optimizing_competit.RateLimit.SlidingWindow.{SlidingWindow}

pub record EndpointRateLimitConfig : Type 0 where
  pub endpoint : String
  pub method : String
  pub requests_per_second : ℕ
  pub requests_per_minute : ℕ
  pub requests_per_hour : ℕ
  pub burst_size : ℕ
  pub enabled : Bool

pub record RateLimitManager : Type 0 where
  pub limiters : Dict (TokenBucket × SlidingWindow)
  pub endpoint_configs : Dict EndpointRateLimitConfig

pub record Headers : Type 0 where
  pub limit : ℕ
  pub remaining : ℤ
  pub reset : Option ℤ

-- `f"{method}:{endpoint}"`
abbrev pub key_of : String → String → String
key_of method endpoint = join method (join ":" endpoint)

-- The two limiters of an endpoint, made at `now`.
unfoldable pub make_limiters : ℕ → EndpointRateLimitConfig → TokenBucket × SlidingWindow
make_limiters now config = (
  TokenBucket.init config.requests_per_second config.requests_per_second second now,
  SlidingWindow.init config.requests_per_minute 60,
)

unfoldable pub add_endpoint_limit :
    ℕ → EndpointRateLimitConfig → RateLimitManager → RateLimitManager
add_endpoint_limit now config m =
    let key = key_of config.method config.endpoint in
    record {
      limiters = insert key (make_limiters now config) m.limiters;
      endpoint_configs = insert key config m.endpoint_configs;
    }

unfoldable pub headers_of : ℕ → EndpointRateLimitConfig → SlidingWindow → Headers
headers_of utcnow config minute =
    let metrics = SlidingWindow.get_metrics utcnow minute in
    record {
      limit = config.requests_per_minute;
      remaining = pos config.requests_per_minute -ℤ pos metrics.allowed_requests;
      reset = metrics.next_reset_time;
    }

-- `check_limit` on an endpoint that has limiters. `none` is an exception: of the bucket, or the
-- KeyError of a missing configuration. What the first limiter did stays done then, which no
-- theorem below needs: they show that nothing is raised.
unfoldable pub check_known :
    ℕ
    → ℕ
    → ℕ
    → String
    → TokenBucket
    → SlidingWindow
    → RateLimitManager
    → Option (Bool × Headers × RateLimitManager)
check_known t1 t2 utcnow key bucket window m = elim (TokenBucket.acquire t1 1 bucket) [
  | none ↦ none
  | some (second_allowed, bucket') ↦
      let (minute_allowed, window') = SlidingWindow.acquire t2 window in
      elim (lookup key m.endpoint_configs) [
        | none ↦ none
        | some config ↦ some (
          second_allowed && minute_allowed,
          headers_of utcnow config window',
          record m { limiters = insert key (bucket', window') m.limiters },
        )
      ]
]

pub data Reply : Type 0 where
  -- an endpoint without limiters: `True, {}`
  unlimited : Reply
  checked : Bool → Headers → RateLimitManager → Reply
  raised : Reply

abbrev pub reply_of : Option (Bool × Headers × RateLimitManager) → Reply
reply_of none = Reply.raised
reply_of (some (ok, headers, m)) = Reply.checked ok headers m

unfoldable pub check_limit : ℕ → ℕ → ℕ → String → String → RateLimitManager → Reply
check_limit t1 t2 utcnow endpoint method m =
    let key = key_of method endpoint in
    elim (lookup key m.limiters) [
      | none ↦ Reply.unlimited
      | some (bucket, window) ↦ reply_of (check_known t1 t2 utcnow key bucket window m)
    ]

-- `get_endpoint_metrics`: per second and per minute.
unfoldable pub get_endpoint_metrics :
    ℕ → String → String → RateLimitManager → Option (RateLimitMetrics × RateLimitMetrics)
get_endpoint_metrics utcnow endpoint method m = elim (lookup (key_of method endpoint) m.limiters) [
  | none ↦ none
  | some (bucket, window) ↦
      some (TokenBucket.get_metrics bucket, SlidingWindow.get_metrics utcnow window)
]
