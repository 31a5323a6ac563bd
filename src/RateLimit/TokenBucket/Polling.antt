-- ===== src/RateLimit/TokenBucket/Polling.antt =====
-- A client that polls the TokenBucketLimiter of core/infrastructure/rate_limiting/limiter.py.
use self_optimizing_competit.Base.{
  ℕ, ◌*◌, ◌≤◌, ◌≡◌, true, false, Option, none, some, List, [], ◌∷◌, ◌++◌, Bool-cases, inl, inr,
  arith,
}
use self_optimizing_competit.Base.Int.{pos, ◌+ℤ◌, ◌≤ℤ◌, int_laws}
use self_optimizing_competit.RateLimit.TokenBucket.{TokenBucket, refilled, spend}
use self_optimizing_competit.RateLimit.TokenBucket.Throughput.{
  IsValid, mul_mono, acquire_lem, spent-Pays, IsOrdered, run, run-Pays,
}

-- A request of at most the capacity is granted where the balance and the refill cover it.
granted_if_covered :
    (now cost : ℕ) (b : TokenBucket)
    → IsValid b
    → cost ≤ b.capacity
    → pos (cost * b.interval) +ℤ pos (b.last_refill * b.refill_rate)
      ≤ℤ b.tokens +ℤ pos (now * b.refill_rate)
    → (spend cost (refilled now b)).0 ≡ true
unfolding refilled spend
granted_if_covered now cost b v fits enough =
    let small = mul_mono cost b.capacity b.interval fits in grind int_laws

-- A poll at `t` that is refused takes nothing: what covers the cost at `now` still does.
refused_covered :
    (t now cost : ℕ) (b : TokenBucket)
    → IsValid b
    → cost ≤ b.capacity
    → t ≤ now
    → (spend cost (refilled t b)).0 ≡ false
    → pos (cost * b.interval) +ℤ pos (b.last_refill * b.refill_rate)
      ≤ℤ b.tokens +ℤ pos (now * b.refill_rate)
    → pos (cost * b.interval) +ℤ pos (t * b.refill_rate)
      ≤ℤ (spend cost (refilled t b)).1.tokens +ℤ pos (now * b.refill_rate)
unfolding refilled spend
refused_covered t now cost b v fits le refused enough =
    let small = mul_mono cost b.capacity b.interval fits in
    let more = mul_mono t now b.refill_rate le in grind int_laws

-- Polls of the same cost at the given times.
abbrev pub polls : ℕ → List ℕ → List (ℕ × ℕ)
polls cost [] = []
polls cost (t ∷ ts) = (t, cost) ∷ polls cost ts

-- A client that has got what it asked for once.
abbrev pub IsServed : ℕ → Option (ℕ × TokenBucket) → Type 0
IsServed cost none = ⊥
IsServed cost (some (granted, b)) = cost ≤ granted

last_poll : (ts : List ℕ) (t now cost : ℕ) → IsOrdered t (polls cost (ts ++ now ∷ [])) → t ≤ now
last_poll [] t now cost o = o.0
last_poll (u ∷ ts) t now cost (le, o) = let later = last_poll ts u now cost o in omega arith

-- After a poll: the client is served by it, or by those that follow.
IsServed-step :
    (t cost : ℕ) (rs : List (ℕ × ℕ)) (b : TokenBucket)
    → IsValid b
    → b.last_refill ≤ t
    → IsOrdered t rs
    → ((spend cost (refilled t b)).0 ≡ false → IsServed cost (run rs (spend cost (refilled t b)).1))
    → IsServed cost (run ((t, cost) ∷ rs) b)
unfolding run
IsServed-step t cost rs b v le o later =
    let e = acquire_lem t cost b v.positive in
    let p = spent-Pays t cost b v le in
    let (n, b'', e', q) = run-Pays rs (spend cost (refilled t b)).1 p.valid (rw p.at_now o) in
    elim (Bool-cases (spend cost (refilled t b)).0) [
      | inl granted ↦ rw (e, run) (rw (e', granted) (omega arith))
      | inr refused ↦
          let got : cost ≤ n = rw e' at (later refused) in
          rw (e, run) (rw (e', refused) (omega arith))
    ]

-- On a valid bucket, in whatever state, a client that asks for the same number of tokens again and
-- again, at any times on a clock that is never set back, while nobody else asks, has been granted
-- them at least once by `now`, if it also asks then, the number is at most the capacity, and the
-- balance of the bucket and its refill from the last one up to `now` cover it: the polls that are
-- refused cost it nothing.
pub acquire_liveness :
    (ts : List ℕ) (now cost : ℕ) (b : TokenBucket)
    → IsValid b
    → IsOrdered b.last_refill (polls cost (ts ++ now ∷ []))
    → cost ≤ b.capacity
    → pos (cost * b.interval) +ℤ pos (b.last_refill * b.refill_rate)
      ≤ℤ b.tokens +ℤ pos (now * b.refill_rate)
    → IsServed cost (run (polls cost (ts ++ now ∷ [])) b)
acquire_liveness [] now cost b v (le, o) fits enough =
    let granted = granted_if_covered now cost b v fits enough in
    IsServed-step now cost [] b v le tt (λ refused. absurd (cc (granted, refused)))
acquire_liveness (t ∷ ts) now cost b v (le, o) fits enough =
    let p = spent-Pays t cost b v le in
    let b' = (spend cost (refilled t b)).1 in
    IsServed-step t cost (polls cost (ts ++ now ∷ [])) b v le o (λ refused.
      let left = refused_covered t now cost b v fits (last_poll ts t now cost o) refused enough in
      acquire_liveness ts now cost b' p.valid (rw p.at_now o) (rw p.same_capacity fits)
        (rw (p.at_now, p.same_rate, p.same_interval) left))
