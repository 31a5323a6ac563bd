-- ===== src/Resilience/Retry/Outcomes.antt =====
-- How a run ends, for a handler without breaker and bulkhead.
use self_optimizing_competit.Base.{
  ℕ, zero, suc, ◌+◌, ◌≤◌, ◌<◌, ◌≡◌, refl, ap, ◌∙◌, Option, none, some, arith,
}
use mathlib.Core.Path.{subst, sym}
use self_optimizing_competit.Resilience.Coroutine.{Outcome, returned, raised, blocked, Error}
use self_optimizing_competit.Resilience.Retry.{
  wait_for, Attempt, Handler, try_once, retry, fall_back, execute,
}

abbrev pub IsBare : Handler → Type 0
IsBare h = (h.circuit_breaker ≡ none) × (h.bulkhead ≡ none)

fall_back-returned :
    {V : Type 0} (fallback : Option (Outcome V)) (v : V)
    → fall_back fallback (returned v) ≡ returned v
fall_back-returned none v = refl
fall_back-returned (some (returned w)) v = refl
fall_back-returned (some (raised e)) v = refl
fall_back-returned (some blocked) v = refl

-- The end of a run whose attempts have failed, by what the fallback does.
abbrev pub IsEnd : {V : Type 0} → Error → Option (Outcome V) → Outcome V → Type 0
IsEnd last none o = o ≡ raised last
IsEnd last (some (returned v)) o = o ≡ returned v
IsEnd last (some (raised e)) o = o ≡ raised last
IsEnd last (some blocked) o = o ≡ blocked

fall_back-IsEnd :
    {V : Type 0} (last : Error) (fallback : Option (Outcome V))
    → IsEnd last fallback (fall_back fallback (raised last))
fall_back-IsEnd last none = refl
fall_back-IsEnd last (some (returned v)) = refl
fall_back-IsEnd last (some (raised e)) = refl
fall_back-IsEnd last (some blocked) = refl

module _ {V : Type 0} (schedule : ℕ → Attempt V) where
  try_once-IsBare :
      (i : ℕ) (h : Handler)
      → IsBare h
      → (try_once (schedule i) h).0 ≡ wait_for (schedule i).result
        × IsBare (try_once (schedule i) h).1
  unfolding try_once
  try_once-IsBare i h (nb, nk) = ground arith

  retry_raised :
      (i left : ℕ) (last e : Error) (h : Handler)
      → (try_once (schedule i) h).0 ≡ raised e
      → let r = retry schedule left (suc i) e (try_once (schedule i) h).1 in
        ((retry schedule (suc left) i last h).outcome ≡ r.outcome)
        × ((retry schedule (suc left) i last h).attempts ≡ suc r.attempts)
  unfolding retry
  retry_raised i left last e h x = (rw (x, retry) refl, rw (x, retry) refl)

  retry_returned :
      (i left : ℕ) (last : Error) (v : V) (h : Handler)
      → (try_once (schedule i) h).0 ≡ returned v
      → ((retry schedule (suc left) i last h).outcome ≡ returned v)
        × ((retry schedule (suc left) i last h).attempts ≡ 1)
  unfolding retry
  retry_returned i left last v h x = (rw (x, retry) refl, rw (x, retry) refl)

  -- The first success, `j` attempts on.
  retry_success :
      (err : ℕ → Error) (k j i left : ℕ) (last : Error) (v : V) (h : Handler)
      → IsBare h
      → k ≡ i + j
      → j < left
      → ((a : ℕ) → a < k → wait_for (schedule a).result ≡ raised (err a))
      → wait_for (schedule k).result ≡ returned v
      → ((retry schedule left i last h).outcome ≡ returned v)
        × ((retry schedule left i last h).attempts ≡ suc j)
  retry_success err k j i zero last v h bare at_k enough before at_last = absurd (omega arith)
  retry_success err k zero i (suc left) last v h bare at_k enough before at_last =
      let (now, _) = try_once-IsBare i h bare in
      let same : k ≡ i = omega arith in retry_returned i left last v h (now ∙ (rw same at at_last))
  retry_success err k (suc j) i (suc left) last v h bare at_k enough before at_last =
      let (now, bare') = try_once-IsBare i h bare in
      let step = retry_raised i left last (err i) h (now ∙ before i (omega arith)) in
      let rest =
        retry_success err k j (suc i) left (err i) v (try_once (schedule i) h).1 bare' (omega arith)
          (omega arith) before at_last in
      (step.0 ∙ rest.0, step.1 ∙ ap suc rest.1)

  retry_none_left :
      (i : ℕ) (last : Error) (h : Handler)
      → ((retry schedule zero i last h).outcome ≡ raised last)
        × ((retry schedule zero i last h).attempts ≡ 0)
  unfolding retry
  retry_none_left i last h = (refl, refl)

  -- No success in `suc n` attempts.
  retry_exhausted :
      (err : ℕ → Error) (n i : ℕ) (last : Error) (h : Handler)
      → IsBare h
      → ((a : ℕ) → a ≤ i + n → wait_for (schedule a).result ≡ raised (err a))
      → ((retry schedule (suc n) i last h).outcome ≡ raised (err (i + n)))
        × ((retry schedule (suc n) i last h).attempts ≡ suc n)
  retry_exhausted err zero i last h bare fails =
      let (now, _) = try_once-IsBare i h bare in
      let step = retry_raised i zero last (err i) h (now ∙ fails i (omega arith)) in
      let rest = retry_none_left (suc i) (err i) (try_once (schedule i) h).1 in
      (step.0 ∙ rest.0 ∙ ap (λ k. raised (err k)) (omega arith), step.1 ∙ ap suc rest.1)
  retry_exhausted err (suc n) i last h bare fails =
      let (now, bare') = try_once-IsBare i h bare in
      let step = retry_raised i (suc n) last (err i) h (now ∙ fails i (omega arith)) in
      let rest =
        retry_exhausted err n (suc i) (err i) (try_once (schedule i) h).1 bare'
          (λ a le. fails a (omega arith)) in
      (step.0 ∙ rest.0 ∙ ap (λ k. raised (err k)) (omega arith), step.1 ∙ ap suc rest.1)

  -- A handler without breaker and bulkhead stops at the first attempt, number `k` from 0, whose
  -- awaited value comes: after `k` failures, with `k` below `max_retries`, it returns that value,
  -- having made `k + 1` attempts, whatever the fallback.
  pub first_success :
      (err : ℕ → Error) (k : ℕ) (v : V) (fallback : Option (Outcome V)) (h : Handler)
      → IsBare h
      → k < h.max_retries
      → ((a : ℕ) → a < k → wait_for (schedule a).result ≡ raised (err a))
      → wait_for (schedule k).result ≡ returned v
      → ((execute schedule fallback h).outcome ≡ returned v)
        × ((execute schedule fallback h).attempts ≡ suc k)
  unfolding execute
  first_success err k v fallback h bare enough before at_k =
      let (o, n) =
        retry_success err k k 0 h.max_retries Error.all_attempts_failed v h bare (omega arith)
          enough before at_k in
      (ap (fall_back fallback) o ∙ fall_back-returned fallback v, n)

  -- If every awaited value of a handler without breaker and bulkhead raises, all the attempts are
  -- made. Then a fallback that returns gives its value as the answer, and one that never ends keeps
  -- the run from ending; without a fallback, or where it raises, the run raises the exception of the
  -- last attempt, and not that of the fallback.
  pub all_attempts_fail :
      (err : ℕ → Error) (n : ℕ) (fallback : Option (Outcome V)) (h : Handler)
      → IsBare h
      → h.max_retries ≡ suc n
      → ((a : ℕ) → a ≤ n → wait_for (schedule a).result ≡ raised (err a))
      → IsEnd (err n) fallback (execute schedule fallback h).outcome
        × ((execute schedule fallback h).attempts ≡ suc n)
  unfolding execute
  all_attempts_fail err n fallback h bare many fails =
      let (o, k) =
        retry_exhausted err n 0 Error.all_attempts_failed h bare (λ a le. fails a (omega arith)) in
      let start = λ (m : ℕ). retry schedule m 0 Error.all_attempts_failed h in
      let ended =
        ap (fall_back fallback)
          (ap (λ m. (start m).outcome) many ∙ o ∙ ap (λ k. raised (err k)) (omega arith)) in
      (
        subst (IsEnd (err n) fallback) (sym ended) (fall_back-IsEnd (err n) fallback),
        ap (λ m. (start m).attempts) many ∙ k,
      )
