-- ===== src/Resilience/Retry/Plain.antt =====
-- What `execute` makes of the value of a function: it awaits it once more.
use mathlib.Core.Path.{subst}
use self_optimizing_competit.Base.{ℕ, zero, suc, ◌≡◌, ◌≢◌, refl, Option, none, some, List}
use self_optimizing_competit.Resilience.Coroutine.{
  Outcome, returned, raised, blocked, Error, Guarded, Action, ◌>>◌, pure, raise,
}
use self_optimizing_competit.Resilience.Breaker
use self_optimizing_competit.Resilience.Breaker.{CircuitBreaker, Readings}
use self_optimizing_competit.Resilience.Bulkhead
use self_optimizing_competit.Resilience.Bulkhead.{Bulkhead}
use self_optimizing_competit.Resilience.Retry.{
  Value, plain, awaitable, wait_for, Attempt, Handler, Report, guarded_call, attempt_with, try_once,
  conclude, delay_after, retry, fall_back, execute,
}

module _ {V : Type 0} where
  -- The function does not return something that can be awaited.
  abbrev pub IsPlain : Outcome (Value V) → Type 0
  IsPlain (returned (plain v)) = Unit
  IsPlain (returned (awaitable r)) = ⊥
  IsPlain (raised e) = Unit
  IsPlain blocked = Unit

  -- No value comes back.
  abbrev pub IsFailed : Outcome V → Type 0
  IsFailed (returned v) = ⊥
  IsFailed (raised e) = Unit
  IsFailed blocked = Unit

  wait_for-IsFailed : (r : Outcome (Value V)) → IsPlain r → IsFailed (wait_for r)
  wait_for-IsFailed (returned (plain v)) p = tt
  wait_for-IsFailed (returned (awaitable r)) p = absurd p
  wait_for-IsFailed (raised e) p = tt
  wait_for-IsFailed blocked p = tt

  then-IsPlain :
      (p : Outcome (Unit {0}) × Guarded CircuitBreaker) (k : Action CircuitBreaker (Value V))
      (g : Guarded CircuitBreaker)
      → ((g' : Guarded CircuitBreaker) → IsPlain (k g').0)
      → IsPlain (((λ (g : Guarded CircuitBreaker). p) >> k) g).0
  then-IsPlain (returned u, g') k g h = h g'
  then-IsPlain (raised e, g') k g h = tt
  then-IsPlain (blocked, g') k g h = tt

  settle-IsPlain :
      (now changed : ℕ) (r : Outcome (Value V)) (g : Guarded CircuitBreaker)
      → IsPlain r
      → IsPlain (Breaker.settle now changed r g).0
  unfolding Breaker.settle
  settle-IsPlain now changed (returned v) g p =
      then-IsPlain (Breaker.record_success changed g) (pure v) g (λ g'. p)
  settle-IsPlain now changed (raised e) g p =
      then-IsPlain (Breaker.record_failure now changed g) (raise e) g (λ g'. tt)
  settle-IsPlain now changed blocked g p = tt

  call-IsPlain :
      (t : Readings) (r : Outcome (Value V)) (g : Guarded CircuitBreaker)
      → IsPlain r
      → IsPlain (Breaker.call t r g).0
  unfolding Breaker.call
  call-IsPlain t r g p =
      then-IsPlain (Breaker.admit t.entered t.probed g) (Breaker.settle t.failed t.changed r) g
        (λ g'. settle-IsPlain t.failed t.changed r g' p)

  guarded_call-IsPlain :
      (a : Attempt V) (o : Option (Guarded CircuitBreaker))
      → IsPlain a.result
      → IsPlain (guarded_call a o).0
  guarded_call-IsPlain a none p = p
  guarded_call-IsPlain a (some g) p = call-IsPlain a.readings a.result g p

  finish-IsPlain :
      (r : Outcome (Value V)) (b : Bulkhead) → IsPlain r → IsPlain (Bulkhead.finish r b).0
  unfolding Bulkhead.finish
  finish-IsPlain (returned v) b p = p
  finish-IsPlain (raised Error.timeout_error) b p = tt
  finish-IsPlain (raised _) b p = tt
  finish-IsPlain blocked b p = tt

  -- With the permit, or without one.
  run_with-IsPlain :
      (wait : ℕ) (r : Outcome (Value V)) (b : Bulkhead) (o : Option Bulkhead)
      → Bulkhead.acquire wait b ≡ o
      → IsPlain r
      → IsPlain (Bulkhead.run_alone wait r b).0
  unfolding Bulkhead.run_alone
  run_with-IsPlain wait r b none e p = rw (e, Bulkhead.run_alone) tt
  run_with-IsPlain wait (returned v) b (some b') e p =
      rw (e, Bulkhead.run_alone) (finish-IsPlain (returned v) b' p)
  run_with-IsPlain wait (raised x) b (some b') e p =
      rw (e, Bulkhead.run_alone) (finish-IsPlain (raised x) b' p)
  run_with-IsPlain wait blocked b (some b') e p = rw (e, Bulkhead.run_alone) tt

  entered-IsPlain :
      (wait : ℕ) (r : Outcome (Value V)) (b : Bulkhead) (o : Outcome (Unit {0}))
      → (Bulkhead.enter b).0 ≡ o
      → IsPlain r
      → IsPlain (Bulkhead.execute wait r b).0
  unfolding Bulkhead.execute
  entered-IsPlain wait r b (returned u) e p =
      let b' = (Bulkhead.enter b).1 in
      rw (e, Bulkhead.execute) (run_with-IsPlain wait r b' (Bulkhead.acquire wait b') refl p)
  entered-IsPlain wait r b (raised x) e p = rw (e, Bulkhead.execute) tt
  entered-IsPlain wait r b blocked e p = rw (e, Bulkhead.execute) tt

  -- Neither the breaker nor the bulkhead makes an awaitable out of something else.
  attempt_with-IsPlain :
      (a : Attempt V) (h : Handler) (o : Option Bulkhead)
      → IsPlain a.result
      → IsPlain (attempt_with a h o).0
  attempt_with-IsPlain a h none p = guarded_call-IsPlain a h.circuit_breaker p
  attempt_with-IsPlain a h (some b) p =
      entered-IsPlain a.wait (guarded_call a h.circuit_breaker).0 b (Bulkhead.enter b).0 refl
        (guarded_call-IsPlain a h.circuit_breaker p)

  conclude-IsFailed :
      (r : Outcome V) (h : Handler) (ds : List ℕ) (rest : Error → Report V)
      → IsFailed r
      → ((e : Error) → IsFailed (rest e).outcome)
      → IsFailed (conclude r h ds rest).outcome
  conclude-IsFailed (returned v) h ds rest f k = absurd f
  conclude-IsFailed (raised e) h ds rest f k = k e
  conclude-IsFailed blocked h ds rest f k = tt

  retry-IsFailed :
      (schedule : ℕ → Attempt V) (left i : ℕ) (last : Error) (h : Handler)
      → ((a : ℕ) → IsPlain (schedule a).result)
      → IsFailed (retry schedule left i last h).outcome
  unfolding retry try_once
  retry-IsFailed schedule zero i last h p = tt
  retry-IsFailed schedule (suc left) i last h p =
      conclude-IsFailed (try_once (schedule i) h).0 (try_once (schedule i) h).1
        (delay_after left i h.retry_delay)
        (λ e. retry schedule left (suc i) e (try_once (schedule i) h).1)
        (wait_for-IsFailed (attempt_with (schedule i) h h.bulkhead).0
          (attempt_with-IsPlain (schedule i) h h.bulkhead (p i)))
        (λ e. retry-IsFailed schedule left (suc i) e (try_once (schedule i) h).1 p)

  fall_back-IsFailed : (r : Outcome V) → IsFailed r → IsFailed (fall_back none r)
  fall_back-IsFailed r f = f

  -- Without a fallback `execute` never returns a value of a function whose results cannot be
  -- awaited, as those of an ordinary coroutine function: with any breaker, any bulkhead and any
  -- number of retries it raises or never ends, also where every attempt succeeds.
  pub plain_never_returns :
      (schedule : ℕ → Attempt V) (h : Handler) (v : V)
      → ((a : ℕ) → IsPlain (schedule a).result)
      → (execute schedule none h).outcome ≢ returned v
  unfolding execute
  plain_never_returns schedule h v p e =
      subst IsFailed e (retry-IsFailed schedule h.max_retries 0 Error.all_attempts_failed h p)
