-- ===== src/RateLimit/Examples.antt =====
-- Runs of the limiters on small inputs, and each theorem at an input that meets its hypotheses.
use self_optimizing_competit.Base.{
  ℕ, ◌+◌, ◌*◌, ◌≤◌, ◌≡◌, ◌&&◌, refl, true, false, none, some, List, [], ◌∷◌, ◌++◌, arith, leb,
  count, if◌then◌else◌,
}
use mathlib.Core.Option
use self_optimizing_competit.Base.Int.{pos, ◌≤ℤ◌, ◌-ℤ◌, ◌+ℤ◌}
use self_optimizing_competit.Base.Dict.{lookup, key_eq}
use self_optimizing_competit.RateLimit.Metrics.{second, no_metrics}
use self_optimizing_competit.RateLimit.Requests.{in_window, granted_of}
use self_optimizing_competit.RateLimit.TokenBucket
use self_optimizing_competit.RateLimit.TokenBucket.{TokenBucket}
use self_optimizing_competit.RateLimit.TokenBucket.Throughput
use self_optimizing_competit.RateLimit.TokenBucket.Throughput.{run_throughput}
use self_optimizing_competit.RateLimit.TokenBucket.Polling
use self_optimizing_competit.RateLimit.TokenBucket.Polling.{acquire_liveness}
use self_optimizing_competit.RateLimit.SlidingWindow
use self_optimizing_competit.RateLimit.SlidingWindow.{SlidingWindow}
use self_optimizing_competit.RateLimit.SlidingWindow.History
use self_optimizing_competit.RateLimit.SlidingWindow.History.{
  decide_all, run-decide_all, window_bound,
}
use self_optimizing_competit.RateLimit.FixedWindow
use self_optimizing_competit.RateLimit.FixedWindow.Bounds
use self_optimizing_competit.RateLimit.FixedWindow.Bounds.{window_bound_twice}
use self_optimizing_competit.RateLimit.Quota
use self_optimizing_competit.RateLimit.Quota.{
  QuotaConfig, QuotaType, ClientQuota, QuotaManager, period_seconds,
}
use self_optimizing_competit.RateLimit.Quota.Usage
use self_optimizing_competit.RateLimit.Quota.Usage.{consume_exact, period_bound}
use self_optimizing_competit.RateLimit.Quota.Isolation.{quota_isolation}
use self_optimizing_competit.RateLimit.Manager.{
  EndpointRateLimitConfig, RateLimitManager, make_limiters, add_endpoint_limit, headers_of,
  check_limit,
}
use self_optimizing_competit.RateLimit.Manager.Checks.{
  Answers, IsReady, Request, after, add_endpoint_limit-IsReady, check_limit_known,
  remaining_never_recovers, grants,
}

-- Two tokens at the start, one more a second.
abbrev requests : List (ℕ × ℕ)
requests = (0, 1) ∷ (0, 1) ∷ (0, 1) ∷ (500000, 1) ∷ (1000000, 1) ∷ []

run_throughput_example :
    (granted : ℕ) × (b : TokenBucket) × (Throughput.run requests (TokenBucket.init 2 1 second 0)
      ≡ some (granted, b))
    × Throughput.IsValid b
    × (granted * second + 0 * 1 ≤ 2 * second + b.last_refill * 1)
run_throughput_example = run_throughput 2 1 second 0 requests (omega arith) (omega arith)

granted_three :
    Option.map (λ r. r.0) (Throughput.run requests (TokenBucket.init 2 1 second 0)) ≡ some 3
unfolding Throughput.run TokenBucket.init TokenBucket.acquire TokenBucket.refilled ◌+ℤ◌ ◌-ℤ◌
granted_three = refl

abbrev empty_bucket : TokenBucket
empty_bucket = record {
  capacity = 2;
  refill_rate = 1;
  interval = 1000000;
  tokens = pos 0;
  last_refill = 5;
  metrics = no_metrics;
}

acquire_liveness_example : Polling.IsServed 2 (
    Throughput.run
      (Polling.polls 2 ((500005 ∷ 1000005 ∷ 1900005 ∷ []) ++ 2000005 ∷ []))
      empty_bucket)
unfolding ◌+ℤ◌
acquire_liveness_example =
    acquire_liveness (500005 ∷ 1000005 ∷ 1900005 ∷ []) 2000005 2 empty_bucket
      (record { positive = omega arith; nonneg = omega arith; full = omega arith; balanced = refl })
      (omega arith, (omega arith, (omega arith, (omega arith, tt)))) (omega arith) (omega arith)

abbrev times : List ℕ
times = 0 ∷ 10 ∷ 20 ∷ 1000000 ∷ 1000005 ∷ 1000010 ∷ []

sliding_answers :
    (History.run times (SlidingWindow.init 2 1)).0 ≡ true ∷ true ∷ false ∷ true ∷ false ∷ true ∷ []
unfolding History.run SlidingWindow.init SlidingWindow.acquire
sliding_answers = refl

run-decide_all_example :
    (History.run times (SlidingWindow.init 2 1)).0 ≡ decide_all 2 (1 * second) [] times
run-decide_all_example = run-decide_all 2 1 0 times (omega arith) (omega arith)

window_bound_example :
    count
      (in_window (1 * second) 1000005)
      (granted_of times (History.run times (SlidingWindow.init 2 1)).0)
    ≤ 2
window_bound_example = window_bound 2 1 0 1000005 times (omega arith) (omega arith)

abbrev boundary : List ℕ
boundary = 999998 ∷ 999999 ∷ 1000000 ∷ 1000001 ∷ []

window_bound_twice_example :
    count
      (in_window (1 * second) 1000001)
      (granted_of boundary (Bounds.run boundary (FixedWindow.init 2 1 0)).0)
    ≤ 2 + 2
window_bound_twice_example = window_bound_twice 2 1 0 1000001 boundary (omega arith) (omega arith)

-- The bound of twice the limit is reached.
boundary_spends_twice :
    (Bounds.run boundary (FixedWindow.init 2 1 0)).0 ≡ true ∷ true ∷ true ∷ true ∷ []
unfolding Bounds.run FixedWindow.init FixedWindow.acquire
boundary_spends_twice = refl

abbrev daily : QuotaConfig
daily = record {
  name = "calls";
  quota_type = QuotaType.per_second;
  max_usage = 10;
  custom_period_seconds = 0;
}

abbrev quota : ClientQuota
quota = record { config = daily; used = 4; period_start = 0 }

consume_exact_example :
    let (ok, q') = Quota.consume 7 6 quota in
    let over = leb (0 + 1 * second) 7 in
    (ok ≡ leb 6 (if over then 10 else (Quota.get_metrics quota).remaining))
    × (q'.used ≤ q'.config.max_usage)
    × (q'.used ≡ (if over then 0 else 4) + (if ok then 6 else 0))
    × (q'.period_start ≡ (if over then 7 else 0))
    × (q'.config ≡ daily)
consume_exact_example = consume_exact 7 6 quota (omega arith)

abbrev uses : List (ℕ × ℕ)
uses = (1, 5) ∷ (2, 4) ∷ (3, 1) ∷ []

period_bound_example :
    ((Usage.run uses quota).0 ≤ (Quota.get_metrics quota).remaining)
    × ((Usage.run uses quota).1.used ≡ 4 + (Usage.run uses quota).0)
period_bound_example = period_bound uses quota (omega arith) (omega arith)

abbrev quotas : QuotaManager
quotas = ("api", ("ann", quota) ∷ []) ∷ []

quota_isolation_example :
    let mine = key_eq "api" "api" && key_eq "bob" "ann" in
    (Quota.find "api" "ann" (Quota.add_quota "api" "bob" daily 9 quotas)
      ≡ (if mine then some (Quota.init daily 9) else Quota.find "api" "ann" quotas))
    × (Quota.find "api" "ann" (Quota.check_quota 9 "api" "bob" 1 quotas).1 ≡ (
        if mine
        then Option.map (λ q. (Quota.consume 9 1 q).1) (Quota.find "api" "bob" quotas)
        else Quota.find "api" "ann" quotas))
    × ((Quota.check_quota 9 "api" "bob" 1 quotas).0
        ≡ Option.get_or
            (Option.map (λ q. (Quota.consume 9 1 q).0) (Quota.find "api" "bob" quotas))
            true)
    × (Quota.find "api" "ann" (Quota.remove_quota "api" "bob" quotas)
        ≡ (if mine then none else Quota.find "api" "ann" quotas))
quota_isolation_example = quota_isolation 9 daily "api" "bob" "api" "ann" 1 quotas ((refl, tt), tt)

abbrev search_limit : EndpointRateLimitConfig
search_limit = record {
  endpoint = "/search";
  method = "GET";
  requests_per_second = 1;
  requests_per_minute = 5;
  requests_per_hour = 100;
  burst_size = 1;
  enabled = true;
}

abbrev no_limits : RateLimitManager
no_limits = record { limiters = []; endpoint_configs = [] }

abbrev one_limit : RateLimitManager
one_limit = add_endpoint_limit 0 search_limit no_limits

no_limits-IsReady : IsReady 0 no_limits
no_limits-IsReady key l e = absurd (ground arith)

one_limit-IsReady : IsReady 0 one_limit
one_limit-IsReady =
    add_endpoint_limit-IsReady 0 0 search_limit no_limits (omega arith) no_limits-IsReady

abbrev request : Request
request = record { endpoint = "/search"; method = "GET"; t1 = 3; t2 = 4; utcnow = 5 }

check_limit_known_example :
    let r = check_limit 3 4 5 "/search" "GET" one_limit in
    (config : EndpointRateLimitConfig) × Answers 3 4 5 "GET:/search"
      (make_limiters 0 search_limit).0
      (make_limiters 0 search_limit).1
      config
      one_limit
      r
    × IsReady 3 (after r one_limit)
    × (lookup "POST:/login" (after r one_limit).limiters ≡ (
        if key_eq "GET:/search" "POST:/login"
        then lookup "GET:/search" (after r one_limit).limiters
        else lookup "POST:/login" one_limit.limiters))
unfolding add_endpoint_limit
check_limit_known_example =
    check_limit_known 0 request "POST:/login" (make_limiters 0 search_limit).0
      (make_limiters 0 search_limit).1 one_limit one_limit-IsReady (omega arith) refl

-- A minute of requests, and one two minutes later.
remaining_never_recovers_example :
    let (oks, w) = History.run (0 ∷ 1 ∷ 2 ∷ []) (make_limiters 0 search_limit).1 in
    let (oks', w') = History.run (120000000 ∷ []) w in
    ((headers_of 7 search_limit w).remaining
      ≡ pos search_limit.requests_per_minute -ℤ pos (grants oks))
    × ((headers_of 8 search_limit w').remaining
        ≡ pos search_limit.requests_per_minute -ℤ pos (grants oks + grants oks'))
    × ((headers_of 8 search_limit w').remaining ≤ℤ (headers_of 7 search_limit w).remaining)
remaining_never_recovers_example =
    remaining_never_recovers 0 7 8 (0 ∷ 1 ∷ 2 ∷ []) (120000000 ∷ []) search_limit
