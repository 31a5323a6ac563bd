-- ===== src/Resilience/Retry/Attempts.antt =====
-- How many attempts are made, and how long is slept between them.
use mathlib.Core.Path.{subst}
use native.Mathlib.Nat.{add-zero, zero-add, add-suc, suc-add, pow-suc}
use self_optimizing_competit.Base.{
  ℕ, zero, suc, ◌+◌, ◌-◌, ◌*◌, ◌^◌, ◌≤◌, ◌<◌, ◌≡◌, refl, ap, ◌∙◌, ◌⊎◌, inl, inr, Option, List, [],
  ◌∷◌, arith,
}
use self_optimizing_competit.Resilience.Coroutine.{Outcome, returned, raised, blocked, Error}
use self_optimizing_competit.Resilience.Bulkhead.{sum}
use self_optimizing_competit.Resilience.Retry.{
  Attempt, Handler, Report, delay_after, failed_then, try_once, retry, execute, conclude,
}

-- All attempts that are made but the last fail, so a run with a delay `d` that begins at attempt `i`
-- sleeps `d * 2 ^ i`, `d * 2 ^ (i + 1)` and so on.
abbrev pub backoff : ℕ → ℕ → ℕ → List ℕ
backoff d i zero = []
backoff d i (suc n) = d * 2 ^ i ∷ backoff d (suc i) n

try_once-retry_delay :
    {V : Type 0} (a : Attempt V) (h : Handler) → (try_once a h).1.retry_delay ≡ h.retry_delay
unfolding try_once
try_once-retry_delay a h = ground arith

-- A run of `left` attempts, from attempt `i` on.
pub record IsPaced {V : Type 0} (d i left : ℕ) (r : Report V) : Type 0 where
  pub within : r.attempts ≤ left
  pub begun : (0 < r.attempts) ⊎ (left ≡ 0)
  pub paced : r.delays ≡ backoff d i (r.attempts - 1)

failed-IsPaced :
    {V : Type 0} (d i left : ℕ) (r : Report V)
    → IsPaced d (suc i) left r
    → IsPaced d i (suc left) (failed_then (delay_after left i d) r)
failed-IsPaced d i zero r h =
    let none_made : r.attempts ≡ 0 = omega (arith, h.within) in
    record {
      within = omega (arith, h.within);
      begun = inl (omega arith);
      paced = rw (h.paced, none_made) refl;
    }
failed-IsPaced d i (suc left) r h =
    let one_made : r.attempts ≡ suc (r.attempts - 1) = omega (arith, h.begun) in
    record {
      within = omega (arith, h.within);
      begun = inl (omega arith);
      paced =
          ap (◌∷◌ (d * 2 ^ i)) h.paced
          ∙ ap (backoff d i) {x = suc (r.attempts - 1)} (omega (arith, one_made));
    }

conclude-IsPaced :
    {V : Type 0} (d i left : ℕ) (r : Outcome V) (h : Handler) (rest : Error → Report V)
    → ((e : Error) → IsPaced d (suc i) left (rest e))
    → IsPaced d i (suc left) (conclude r h (delay_after left i d) rest)
conclude-IsPaced d i left (returned v) h rest p = record {
  within = omega arith;
  begun = inl (omega arith);
  paced = refl;
}
conclude-IsPaced d i left blocked h rest p = record {
  within = omega arith;
  begun = inl (omega arith);
  paced = refl;
}
conclude-IsPaced d i left (raised e) h rest p = failed-IsPaced d i left (rest e) (p e)

retry-IsPaced :
    {V : Type 0} (schedule : ℕ → Attempt V) (left i : ℕ) (last : Error) (h : Handler)
    → IsPaced h.retry_delay i left (retry schedule left i last h)
unfolding retry
retry-IsPaced schedule zero i last h = record {
  within = omega arith;
  begun = inr refl;
  paced = refl;
}
retry-IsPaced schedule (suc left) i last h =
    conclude-IsPaced h.retry_delay i left (try_once (schedule i) h).0 (try_once (schedule i) h).1
      (λ x. retry schedule left (suc i) x (try_once (schedule i) h).1)
      (λ x.
        subst
          (λ d. IsPaced d (suc i) left (retry schedule left (suc i) x (try_once (schedule i) h).1))
          (try_once-retry_delay (schedule i) h)
          (retry-IsPaced schedule left (suc i) x (try_once (schedule i) h).1))

sum-backoff : (d i n : ℕ) → sum (backoff d i n) + d * 2 ^ i ≡ d * 2 ^ (i + n)
sum-backoff d i zero = rw add-zero (omega arith)
sum-backoff d i (suc n) =
    let doubled : d * 2 ^ suc i ≡ d * 2 ^ i + d * 2 ^ i = rw pow-suc (omega arith) in
    rw (add-suc, ← suc-add) (omega (arith, sum-backoff d (suc i) n))

slept : (d n : ℕ) → sum (backoff d 0 n) + d ≡ d * 2 ^ n
slept d n = omega (arith, sum-backoff d 0 n, ap (λ k. d * 2 ^ k) (zero-add n))

-- Whatever the function, the breaker and the bulkhead do, and whatever the fallback: at least one
-- attempt is made if any is configured, and at most `max_retries`. Between `n` attempts the run
-- sleeps `n - 1` times, `retry_delay` first and twice as long each time, which makes
-- `retry_delay * (2 ^ (n - 1) - 1)` together.
pub execute-IsPaced :
    {V : Type 0} (schedule : ℕ → Attempt V) (fallback : Option (Outcome V)) (h : Handler)
    → let r = execute schedule fallback h in
      IsPaced h.retry_delay 0 h.max_retries r
      × (sum r.delays + h.retry_delay ≡ h.retry_delay * 2 ^ (r.attempts - 1))
unfolding execute
execute-IsPaced schedule fallback h =
    let p = retry-IsPaced schedule h.max_retries 0 Error.all_attempts_failed h in
    (
      record { within = p.within; begun = p.begun; paced = p.paced },
      rw p.paced (slept h.retry_delay _),
    )
