-- ===== src/Resilience/Coroutine.antt =====
-- Coroutines of one event loop over an object with an `asyncio.Lock`. The lock is not reentrant: a
-- task that asks for it while it holds it waits for itself. The code that is modelled suspends a
-- task under a lock nowhere else, so a lock that is found taken is never released; no task is
-- cancelled from outside.
use self_optimizing_competit.Base.{Bool, true, false, if◌then◌else◌}

pub data Error : Type 0 where
  circuit_open : Error
  half_open_full : Error
  queue_full : Error
  bulkhead_timeout : Error
  all_attempts_failed : Error
  timeout_error : Error
  type_error : Error
  -- what the called function raises
  failure : Error

pub data Outcome {ℓ} (A : Type ℓ) : Type ℓ where
  returned : A → Outcome A
  raised : Error → Outcome A
  -- suspended for good
  blocked : Outcome A

pub record Guarded (S : Type 0) : Type 0 where
  pub locked : Bool
  pub object : S

abbrev pub Action : Type 0 → Type 0 → Type 0
Action S A = Guarded S → Outcome A × Guarded S

module _ {S : Type 0} where
  infixl 5 ◌>>=◌ ◌>>◌
  abbrev pub ◌>>=◌ : {A B : Type 0} → Action S A → (A → Action S B) → Action S B
  ◌>>=◌ m f g =
      let (r, g') = m g in
      elim r [ returned a ↦ f a g' | raised e ↦ (raised e, g') | blocked ↦ (blocked, g') ]

  abbrev pub ◌>>◌ : {A B : Type 0} → Action S A → Action S B → Action S B
  m >> k = m >>= λ _. k

  abbrev pub pure : {A : Type 0} → A → Action S A
  pure a g = (returned a, g)

  abbrev pub raise : {A : Type 0} → Error → Action S A
  raise e g = (raised e, g)

  abbrev pub gets : {A : Type 0} → (S → A) → Action S A
  gets f g = (returned (f g.object), g)

  abbrev pub modify : (S → S) → Action S (Unit {0})
  modify f g = (returned tt, record g { object = f g.object })

  abbrev pub when : Bool → Action S (Unit {0}) → Action S (Unit {0})
  when b m g = if b then m g else (returned tt, g)

  -- The lock is left on a return and on an exception.
  abbrev pub release : {A : Type 0} → Outcome A × Guarded S → Outcome A × Guarded S
  release (returned a, g) = (returned a, record g { locked = false })
  release (raised e, g) = (raised e, record g { locked = false })
  release (blocked, g) = (blocked, g)

  -- `async with self._lock:`
  abbrev pub with_lock : {A : Type 0} → Action S A → Action S A
  with_lock m g = if g.locked then (blocked, g) else release (m (record g { locked = true }))
