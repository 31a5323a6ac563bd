-- ===== src/RateLimit/TokenBucket/Throughput.antt =====
-- What a token bucket lets through, whatever the sequence of requests.
use self_optimizing_competit.Base.{
  ℕ, ◌+◌, ◌*◌, ◌≤◌, ◌<◌, ◌≡◌, refl, ◌∙◌, Bool, Option, none, some, List, [], ◌∷◌, arith,
  if◌then◌else◌,
}
use self_optimizing_competit.Base.Int.{pos, ◌+ℤ◌, ◌≤ℤ◌, int_laws}
use self_optimizing_competit.RateLimit.Metrics.{IsBalanced}
use self_optimizing_competit.RateLimit.TokenBucket.{
  TokenBucket, init, parts, refill, refilled, spend, acquire,
}

-- The balance lies between nothing and the capacity, and every request has been counted.
pub record IsValid (b : TokenBucket) : Type 0 where
  pub positive : 0 < b.interval
  pub nonneg : pos 0 ≤ℤ b.tokens
  pub full : b.tokens ≤ℤ parts b b.capacity
  pub balanced : IsBalanced b.metrics

-- What stays as it was, and what the parts handed out are paid from: the old balance and the refill.
pub record Pays (b : TokenBucket) (now granted : ℕ) (b' : TokenBucket) : Type 0 where
  pub valid : IsValid b'
  pub at_now : b'.last_refill ≡ now
  pub same_capacity : b'.capacity ≡ b.capacity
  pub same_rate : b'.refill_rate ≡ b.refill_rate
  pub same_interval : b'.interval ≡ b.interval
  pub paid :
      pos (granted * b.interval) +ℤ b'.tokens +ℤ pos (b.last_refill * b.refill_rate)
      ≤ℤ b.tokens +ℤ pos (now * b.refill_rate)

pub mul_mono : (a b c : ℕ) → a ≤ b → a * c ≤ b * c
mul_mono a b c h = grind arith

refilled-Pays :
    (now : ℕ) (b : TokenBucket) → IsValid b → b.last_refill ≤ now → Pays b now 0 (refilled now b)
unfolding refilled
refilled-Pays now b v h =
    let more = mul_mono b.last_refill now b.refill_rate h in
    record {
      valid = record {
        positive = v.positive;
        nonneg = grind (int_laws, more);
        full = grind int_laws;
        balanced = v.balanced;
      };
      at_now = refl;
      same_capacity = refl;
      same_rate = refl;
      same_interval = refl;
      paid = grind int_laws;
    }

spend-Pays :
    (now cost : ℕ) (b : TokenBucket)
    → IsValid b
    → b.last_refill ≡ now
    → Pays b now (if (spend cost b).0 then cost else 0) (spend cost b).1
unfolding spend
spend-Pays now cost b v e = record {
  valid = record {
    positive = grind int_laws;
    nonneg = grind int_laws;
    full = grind int_laws;
    balanced = grind int_laws;
  };
  at_now = ground arith;
  same_capacity = ground arith;
  same_rate = ground arith;
  same_interval = ground arith;
  paid = grind int_laws;
}

Pays-refl : (b : TokenBucket) → IsValid b → Pays b b.last_refill 0 b
Pays-refl b v = record {
  valid = v;
  at_now = refl;
  same_capacity = refl;
  same_rate = refl;
  same_interval = refl;
  paid = omega int_laws;
}

-- Payments add up, since the balance in between cancels.
Pays-trans :
    (b c d : TokenBucket) (t u n m k : ℕ) → k ≡ n + m → Pays b t n c → Pays c u m d → Pays b u k d
Pays-trans b c d t u n m k e p q =
    let at_c : c.last_refill * c.refill_rate ≡ t * b.refill_rate = cc (p.at_now, p.same_rate) in
    let at_u : u * c.refill_rate ≡ u * b.refill_rate = cc p.same_rate in
    let total : k * b.interval ≡ n * b.interval + m * b.interval = rw e (omega arith) in
    let given : m * c.interval ≡ m * b.interval = cc p.same_interval in
    record {
      valid = q.valid;
      at_now = q.at_now;
      same_capacity = q.same_capacity ∙ p.same_capacity;
      same_rate = q.same_rate ∙ p.same_rate;
      same_interval = q.same_interval ∙ p.same_interval;
      paid = omega int_laws;
    }

pub acquire_lem :
    (now cost : ℕ) (b : TokenBucket)
    → 0 < b.interval
    → acquire now cost b ≡ some (spend cost (refilled now b))
unfolding acquire refill
acquire_lem now cost b h = ground arith

pub spent-Pays :
    (now cost : ℕ) (b : TokenBucket)
    → IsValid b
    → b.last_refill ≤ now
    → let (ok, b') = spend cost (refilled now b) in Pays b now (if ok then cost else 0) b'
spent-Pays now cost b v h =
    let r = refilled now b in
    let p = refilled-Pays now b v h in
    let q = spend-Pays now cost r p.valid p.at_now in
    Pays-trans b r (spend cost r).1 now now 0 _ _ (omega arith) p q

-- A request on a valid bucket never raises, and pays for what it is granted.
pub acquire-Pays :
    (now cost : ℕ) (b : TokenBucket)
    → IsValid b
    → b.last_refill ≤ now
    → (ok : Bool) × (b' : TokenBucket) × (acquire now cost b ≡ some (ok, b'))
      × Pays b now (if ok then cost else 0) b'
acquire-Pays now cost b v h =
    let (ok, b') = spend cost (refilled now b) in
    (ok, b', acquire_lem now cost b v.positive, spent-Pays now cost b v h)

-- Requests at `(time, cost)`; the clock is never set back.
abbrev pub IsOrdered : ℕ → List (ℕ × ℕ) → Type 0
IsOrdered t [] = Unit
IsOrdered t ((now, cost) ∷ rs) = (t ≤ now) × IsOrdered now rs

-- A client that makes the requests in turn, and adds up the tokens that it is granted.
unfoldable pub run : List (ℕ × ℕ) → TokenBucket → Option (ℕ × TokenBucket)
run [] b = some (0, b)
run ((now, cost) ∷ rs) b = elim (acquire now cost b) [
  | none ↦ none
  | some (ok, b') ↦ elim (run rs b') [
    | none ↦ none
    | some (n, b'') ↦ some ((if ok then cost else 0) + n, b'')
  ]
]

pub run-Pays :
    (rs : List (ℕ × ℕ)) (b : TokenBucket)
    → IsValid b
    → IsOrdered b.last_refill rs
    → (n : ℕ) × (b' : TokenBucket) × (run rs b ≡ some (n, b')) × Pays b b'.last_refill n b'
unfolding run
run-Pays [] b v h = (0, b, refl, Pays-refl b v)
run-Pays ((now, cost) ∷ rs) b v (le, h) =
    let (ok, b', e, p) = acquire-Pays now cost b v le in
    let (n, b'', e', q) = run-Pays rs b' p.valid (rw p.at_now h) in
    (
      (if ok then cost else 0) + n,
      b'',
      rw (e, run) (rw e'),
      Pays-trans b b' b'' now b''.last_refill _ n _ refl p q,
    )

pub init-IsValid :
    (capacity rate interval start : ℕ) → 0 < interval → IsValid (init capacity rate interval start)
unfolding init
init-IsValid capacity rate interval start h = record {
  positive = h;
  nonneg = omega arith;
  full = omega arith;
  balanced = refl;
}

-- From its creation at `start`, through any requests on a clock that is never set back, a bucket
-- with a positive interval raises nothing, and the tokens that it has granted never exceed its
-- capacity plus what its rate refills up to the last request (or `start`, if there was none):
-- `granted * interval ≤ capacity * interval + (last - start) * rate`. Its balance stays between 0
-- and the capacity, and its counters add up.
pub run_throughput :
    (capacity rate interval start : ℕ) (rs : List (ℕ × ℕ))
    → 0 < interval
    → IsOrdered start rs
    → (granted : ℕ) × (b : TokenBucket) × (run rs (init capacity rate interval start)
        ≡ some (granted, b))
      × IsValid b
      × (granted * interval + start * rate ≤ capacity * interval + b.last_refill * rate)
unfolding init
run_throughput capacity rate interval start rs h o =
    let b = init capacity rate interval start in
    let (n, b', e, p) = run-Pays rs b (init-IsValid capacity rate interval start h) o in
    (n, b', e, p.valid, omega (int_laws, p.paid, p.valid.nonneg))
