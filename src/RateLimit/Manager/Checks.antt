-- ===== src/RateLimit/Manager/Checks.antt =====
-- Every check on a configured endpoint answers, and what it answers.
use self_optimizing_competit.Base.{
  ℕ, ◌+◌, ◌≤◌, ◌≡◌, ◌≢◌, ◌↔◌, refl, ap, Bool, ◌&&◌, List, count, Option, none, some, String, [],
  ◌∷◌, arith, if◌then◌else◌, Option-cases, inl, inr,
}
use self_optimizing_competit.Base.Int.{pos, ◌-ℤ◌, ◌≤ℤ◌, int_laws}
use self_optimizing_competit.Base.Dict.{
  Dict, lookup, insert, key_eq, lookup-insert, insert_every, insert_knows, lookup-insert_self,
}
use self_optimizing_competit.RateLimit.Metrics.{second}
use self_optimizing_competit.RateLimit.TokenBucket
use self_optimizing_competit.RateLimit.TokenBucket.{TokenBucket}
use self_optimizing_competit.RateLimit.TokenBucket.Throughput.{IsValid, init-IsValid, acquire-Pays}
use self_optimizing_competit.RateLimit.SlidingWindow
use self_optimizing_competit.RateLimit.SlidingWindow.{SlidingWindow}
use self_optimizing_competit.RateLimit.SlidingWindow.History.{run}
use self_optimizing_competit.RateLimit.Manager.{
  EndpointRateLimitConfig, RateLimitManager, Headers, Reply, key_of, make_limiters,
  add_endpoint_limit, headers_of, reply_of, check_known, check_limit,
}

-- An endpoint's limiters at time `t`: a bucket that works and was last used by then, and a
-- configuration beside them.
pub record IsServed (t : ℕ) (configs : Dict EndpointRateLimitConfig) (key : String)
    (limiters : TokenBucket × SlidingWindow) : Type 0 where
  pub valid : IsValid limiters.0
  pub used : limiters.0.last_refill ≤ t
  pub config : EndpointRateLimitConfig
  pub configured : lookup key configs ≡ some config

abbrev pub IsReady : ℕ → RateLimitManager → Type 0
IsReady t m =
    (key : String) (limiters : TokenBucket × SlidingWindow)
    → lookup key m.limiters ≡ some limiters
    → IsServed t m.endpoint_configs key limiters

-- A limit for an endpoint can be added, or replaced, at any time.
pub add_endpoint_limit-IsReady :
    (t now : ℕ) (config : EndpointRateLimitConfig) (m : RateLimitManager)
    → t ≤ now
    → IsReady t m
    → IsReady now (add_endpoint_limit now config m)
unfolding add_endpoint_limit make_limiters TokenBucket.init
add_endpoint_limit-IsReady t now config m le h =
    let key = key_of config.method config.endpoint in
    insert_every (IsServed now (insert key config m.endpoint_configs)) key
      (make_limiters now config) m.limiters
      (record {
        valid =
            init-IsValid config.requests_per_second config.requests_per_second second now
              (omega arith);
        used = omega arith;
        config = config;
        configured = lookup-insert_self key config m.endpoint_configs;
      })
      (λ j l e.
        let s = h j l e in
        let (c, known) = insert_knows key j config m.endpoint_configs s.configured in
        record { valid = s.valid; used = omega (arith, s.used); config = c; configured = known })

-- What a check does to the endpoint: both limiters count the request, whatever the other says.
pub record Answers (t1 t2 utcnow : ℕ) (key : String) (b : TokenBucket) (w : SlidingWindow)
    (config : EndpointRateLimitConfig) (m : RateLimitManager) (r : Reply) : Type 0 where
  pub second_allowed : Bool
  pub bucket : TokenBucket
  pub minute_allowed : Bool
  pub window : SlidingWindow
  pub second_step : TokenBucket.acquire t1 1 b ≡ some (second_allowed, bucket)
  pub minute_step : SlidingWindow.acquire t2 w ≡ (minute_allowed, window)
  pub answer :
      r
      ≡ Reply.checked
          (second_allowed && minute_allowed)
          (headers_of utcnow config window)
          (record m { limiters = insert key (bucket, window) m.limiters })

pub check_known-Answers :
    (t t1 t2 utcnow : ℕ) (key : String) (b : TokenBucket) (w : SlidingWindow) (m : RateLimitManager)
    → t ≤ t1
    → (s : IsServed t m.endpoint_configs key (b, w))
    → Answers t1 t2 utcnow key b w s.config m (reply_of (check_known t1 t2 utcnow key b w m))
unfolding check_known
check_known-Answers t t1 t2 utcnow key b w m le s =
    let (ok, b', e, p) = acquire-Pays t1 1 b s.valid (omega (arith, s.used)) in
    record {
      second_allowed = ok;
      bucket = b';
      minute_allowed = (SlidingWindow.acquire t2 w).0;
      window = (SlidingWindow.acquire t2 w).1;
      second_step = e;
      minute_step = refl;
      answer = ground (arith, e, s.configured);
    }

-- The checks of a client, one after another: `(endpoint, method)` with the three clock readings.
pub record Request : Type 0 where
  pub endpoint : String
  pub method : String
  pub t1 : ℕ
  pub t2 : ℕ
  pub utcnow : ℕ

abbrev pub after : Reply → RateLimitManager → RateLimitManager
after Reply.unlimited m = m
after (Reply.checked _ _ m') m = m'
after Reply.raised m = m

check_known-IsReady :
    (t t1 t2 utcnow : ℕ) (key : String) (b : TokenBucket) (w : SlidingWindow) (m : RateLimitManager)
    → t ≤ t1
    → lookup key m.limiters ≡ some (b, w)
    → IsReady t m
    → IsReady t1 (after (reply_of (check_known t1 t2 utcnow key b w m)) m)
check_known-IsReady t t1 t2 utcnow key b w m le e h =
    let s = h key (b, w) e in
    let a = check_known-Answers t t1 t2 utcnow key b w m le s in
    let (ok, b', e', p) = acquire-Pays t1 1 b s.valid (omega (arith, s.used)) in
    let same : b' ≡ a.bucket = cc (e', a.second_step) in
    rw a.answer (
      insert_every (IsServed t1 m.endpoint_configs) key (a.bucket, a.window) m.limiters
        (record {
          valid = rw same at p.valid;
          used = rw (← same) (omega (arith, p.at_now));
          config = s.config;
          configured = s.configured;
        })
        (λ j l k.
          let o = h j l k in
          record {
            valid = o.valid;
            used = omega (arith, o.used);
            config = o.config;
            configured = o.configured;
          }))

-- An endpoint that has limiters, on a manager whose buckets were used by `t` at the latest, with a
-- check at `t1 ≥ t`: nothing is raised, both limiters count the request even if one of them refuses
-- it, the answer is yes exactly if both say yes, the limiters of every other endpoint stay as they
-- were, and the manager is ready for the next check.
pub check_limit_known :
    (t : ℕ) (q : Request) (other : String) (b : TokenBucket) (w : SlidingWindow)
    (m : RateLimitManager)
    → IsReady t m
    → t ≤ q.t1
    → lookup (key_of q.method q.endpoint) m.limiters ≡ some (b, w)
    → let key = key_of q.method q.endpoint in
      let r = check_limit q.t1 q.t2 q.utcnow q.endpoint q.method m in
      (config : EndpointRateLimitConfig) × Answers q.t1 q.t2 q.utcnow key b w config m r
      × IsReady q.t1 (after r m)
      × (lookup other (after r m).limiters
          ≡ (if key_eq key other then lookup key (after r m).limiters else lookup other m.limiters))
unfolding check_limit
check_limit_known t q other b w m h le e =
    let key = key_of q.method q.endpoint in
    let s = h key (b, w) e in
    let a = check_known-Answers t q.t1 q.t2 q.utcnow key b w m le s in
    rw (e, check_limit)
      (
        s.config,
        a,
        check_known-IsReady t q.t1 q.t2 q.utcnow key b w m le e h,
        rw a.answer (
            ground (
              arith,
              lookup-insert key other (a.bucket, a.window) m.limiters,
              lookup-insert_self key (a.bucket, a.window) m.limiters,
            )),
      )

reply_of-ne-unlimited :
    (x : Option (Bool × Headers × RateLimitManager)) → reply_of x ≢ Reply.unlimited
reply_of-ne-unlimited none = λ e. cc
reply_of-ne-unlimited (some (ok, headers, m)) = λ e. cc

-- Exactly the endpoints without limiters are let through unchecked.
check_limit-unlimited_iff :
    (q : Request) (m : RateLimitManager)
    → (check_limit q.t1 q.t2 q.utcnow q.endpoint q.method m ≡ Reply.unlimited)
      ↔ (lookup (key_of q.method q.endpoint) m.limiters ≡ none)
unfolding check_limit
check_limit-unlimited_iff q m =
    elim (Option-cases (lookup (key_of q.method q.endpoint) m.limiters)) [
      | inl missing ↦ (λ _. missing, λ _. rw (missing, check_limit))
      | inr ((b, w), e) ↦
          (λ r. absurd (reply_of-ne-unlimited _ (rw (e, check_limit) at r)), λ k. cc)
    ]

-- How many requests were granted.
abbrev pub grants : List Bool → ℕ
grants oks = count (λ ok. ok) oks

same_granted :
    (now : ℕ) (w : SlidingWindow)
    → (SlidingWindow.acquire now w).1.metrics.allowed_requests
      ≡ (if (SlidingWindow.acquire now w).0 then 1 else 0) + w.metrics.allowed_requests
unfolding SlidingWindow.acquire
same_granted now w = ground arith

run-grants :
    (times : List ℕ) (w : SlidingWindow)
    → let (oks, w') = run times w in
      w'.metrics.allowed_requests ≡ grants oks + w.metrics.allowed_requests
unfolding run
run-grants [] w = ground arith
run-grants (now ∷ times) w =
    let rest = run-grants times (SlidingWindow.acquire now w).1 in
    ground (arith, same_granted now w, rest)

-- The remaining count in the headers never recovers. For the limiter that is made for an endpoint,
-- after requests at any times, granted or refused, it is the limit of a minute less all the grants
-- since the limiter was made; and after any more requests, however late, all of their grants are
-- subtracted too, so that it is never higher than before.
pub remaining_never_recovers :
    (start utcnow later : ℕ) (first more : List ℕ) (config : EndpointRateLimitConfig)
    → let (oks, w) = run first (make_limiters start config).1 in
      let (oks', w') = run more w in
      ((headers_of utcnow config w).remaining ≡ pos config.requests_per_minute -ℤ pos (grants oks))
      × ((headers_of later config w').remaining
          ≡ pos config.requests_per_minute -ℤ pos (grants oks + grants oks'))
      × ((headers_of later config w').remaining ≤ℤ (headers_of utcnow config w).remaining)
unfolding headers_of make_limiters SlidingWindow.init SlidingWindow.get_metrics ◌-ℤ◌
remaining_never_recovers start utcnow later first more config =
    let w = (make_limiters start config).1 in
    let n = run-grants first w in
    let m = run-grants more (run first w).1 in
    (
      ap (λ g. pos config.requests_per_minute -ℤ pos g) (omega (arith, n)),
      ap (λ g. pos config.requests_per_minute -ℤ pos g) (omega (arith, n, m)),
      omega (int_laws, n, m),
    )
