-- ===== src/Resilience/Retry.antt =====
-- `Resilience.execute` of core/infrastructure/resilience/patterns.py: retries through an optional
-- circuit breaker and an optional bulkhead, with no other task in between. What the function does at
-- each attempt is an argument. Delays are in the unit of `retry_delay`.
pub mod Attempts
pub mod Plain
pub mod Outcomes
use self_optimizing_competit.Base.{
  ℕ, zero, suc, ◌+◌, ◌*◌, ◌^◌, Bool, true, false, Option, none, some, List, [], ◌∷◌, ◌++◌,
  if◌then◌else◌,
}
use self_optimizing_competit.Resilience.Coroutine.{
  Outcome, returned, raised, blocked, Error, Guarded,
}
use self_optimizing_competit.Resilience.Breaker
use self_optimizing_competit.Resilience.Breaker.{CircuitBreaker, Readings}
use self_optimizing_competit.Resilience.Bulkhead
use self_optimizing_competit.Resilience.Bulkhead.{Bulkhead}

-- A value that a coroutine returns: one that cannot be awaited, or one that can, with its outcome
-- within the timeout.
pub data Value (V : Type 0) : Type 0 where
  plain : V → Value V
  awaitable : Outcome V → Value V

-- `asyncio.wait_for`, which raises a TypeError for what cannot be awaited
abbrev pub wait_for : {V : Type 0} → Outcome (Value V) → Outcome V
wait_for (returned (plain v)) = raised Error.type_error
wait_for (returned (awaitable r)) = r
wait_for (raised e) = raised e
wait_for blocked = blocked

pub record Handler : Type 0 where
  pub circuit_breaker : Option (Guarded CircuitBreaker)
  pub bulkhead : Option Bulkhead
  pub max_retries : ℕ
  pub retry_delay : ℕ

-- What an attempt meets: the clock, the wait for a permit, and how the function ends if it is called.
pub record Attempt (V : Type 0) : Type 0 where
  pub readings : Readings
  pub wait : ℕ
  pub result : Outcome (Value V)

-- How a run ends: its outcome, the handler, the attempts made and the delays slept.
pub record Report (V : Type 0) : Type 0 where
  pub outcome : Outcome V
  pub handler : Handler
  pub attempts : ℕ
  pub delays : List ℕ

-- The delay after a failed attempt, but for the last one.
abbrev pub delay_after : ℕ → ℕ → ℕ → List ℕ
delay_after zero attempt delay = []
delay_after (suc _) attempt delay = delay * 2 ^ attempt ∷ []

module _ {V : Type 0} where
  -- `func_to_call`
  abbrev pub guarded_call :
      Attempt V
      → Option (Guarded CircuitBreaker)
      → Outcome (Value V) × Option (Guarded CircuitBreaker)
  guarded_call a none = (a.result, none)
  guarded_call a (some g) = let (r, g') = Breaker.call a.readings a.result g in (r, some g')

  -- One attempt: the bulkhead around the breaker around the function. A bulkhead that turns the
  -- call away does not reach the breaker.
  abbrev pub attempt_with : Attempt V → Handler → Option Bulkhead → Outcome (Value V) × Handler
  attempt_with a h none =
      let (r, g) = guarded_call a h.circuit_breaker in (r, record h { circuit_breaker = g })
  attempt_with a h (some b) =
      let (r, g) = guarded_call a h.circuit_breaker in
      let (r', b') = Bulkhead.execute a.wait r b in
      (
        r',
        if Bulkhead.admits b
            then record h { circuit_breaker = g; bulkhead = some b' }
            else record h { bulkhead = some b' },
      )

  unfoldable pub try_once : Attempt V → Handler → Outcome V × Handler
  try_once a h = let (r, h') = attempt_with a h h.bulkhead in (wait_for r, h')

  abbrev pub failed_then : List ℕ → Report V → Report V
  failed_then ds r = record r { attempts = suc r.attempts; delays = ds ++ r.delays }

  -- The end of an attempt: `return result`, or the `except` with the attempts that are left.
  abbrev pub conclude : Outcome V → Handler → List ℕ → (Error → Report V) → Report V
  conclude (returned v) h ds rest = record {
    outcome = returned v;
    handler = h;
    attempts = 1;
    delays = [];
  }
  conclude blocked h ds rest = record { outcome = blocked; handler = h; attempts = 1; delays = [] }
  conclude (raised e) h ds rest = failed_then ds (rest e)

  -- The loop, with `left` attempts to go and the last error.
  unfoldable pub retry : (ℕ → Attempt V) → ℕ → ℕ → Error → Handler → Report V
  retry schedule zero attempt last h = record {
    outcome = raised last;
    handler = h;
    attempts = 0;
    delays = [];
  }
  retry schedule (suc left) attempt last h =
      let (r, h') = try_once (schedule attempt) h in
      conclude r h' (delay_after left attempt h.retry_delay)
        (λ e. retry schedule left (suc attempt) e h')

  -- `if fallback:`; an exception of the fallback is logged, and the last error raised
  abbrev pub fall_back : Option (Outcome V) → Outcome V → Outcome V
  fall_back (some (returned v)) (raised e) = returned v
  fall_back (some blocked) (raised e) = blocked
  fall_back _ r = r

  unfoldable pub execute : (ℕ → Attempt V) → Option (Outcome V) → Handler → Report V
  execute schedule fallback h =
      let r = retry schedule h.max_retries 0 Error.all_attempts_failed h in
      record r { outcome = fall_back fallback r.outcome }
