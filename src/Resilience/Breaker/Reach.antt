-- ===== src/Resilience/Breaker/Reach.antt =====
-- Every history of a circuit breaker: any number of tasks, in any order, at any clock readings.
use self_optimizing_competit.Base.{
  ℕ, suc, ◌+◌, ◌-◌, ◌≤◌, ◌<◌, ◌≡◌, ◌≢◌, refl, sym, Bool, true, false, not, List, [], ◌∷◌, ◌++◌,
  arith, ltb, length, drop, Bool-cases, inl, inr, if◌then◌else◌, length-append, count-append,
}
use self_optimizing_competit.Resilience.Coroutine.{returned, Guarded}
use self_optimizing_competit.Resilience.Breaker.{
  CircuitBreaker, CircuitBreakerConfig, closed, init, note_success, note_failure, push_history,
  failures, trips, record_success, record_failure, admit,
}
use self_optimizing_competit.Resilience.Breaker.Recording.{
  record_success_closed, record_failure_full, record_failure_room, admit_closed, admit-stuck,
}

-- The breaker, and the number of calls that wait for their function.
pub record System : Type 0 where
  pub breaker : Guarded CircuitBreaker
  pub in_flight : ℕ

-- One task runs from one suspension to the next.
pub data Step (s : System) : System → Type 0 where
  enter :
      (now changed : ℕ)
      → (admit now changed s.breaker).0 ≡ returned tt
      → Step s (record { breaker = (admit now changed s.breaker).1; in_flight = suc s.in_flight })
  refuse :
      (now changed : ℕ)
      → (admit now changed s.breaker).0 ≢ returned tt
      → Step s (record s { breaker = (admit now changed s.breaker).1 })
  succeed :
      (changed : ℕ)
      → 0 < s.in_flight
      → Step s
          (record { breaker = (record_success changed s.breaker).1; in_flight = s.in_flight - 1 })
  fail :
      (now changed : ℕ)
      → 0 < s.in_flight
      → Step s (record {
        breaker = (record_failure now changed s.breaker).1;
        in_flight = s.in_flight - 1;
      })

pub data Reach (config : CircuitBreakerConfig) (start : ℕ) : System → Type 0 where
  here : Reach config start (record { breaker = init config start; in_flight = 0 })
  next : {s t : System} → Reach config start s → Step s t → Reach config start t

-- What holds of the breaker between two steps.
pub record IsInert (b : CircuitBreaker) : Type 0 where
  pub never_left : b.state ≡ closed
  pub no_changes : b.metrics.state_changes ≡ 0
  pub no_rejections : b.metrics.rejected_calls ≡ 0
  pub windowed : length b.call_history ≤ b.config.window_size
  pub balanced : b.metrics.total_calls ≡ b.metrics.successful_calls + b.metrics.failed_calls

length-trim :
    (w : ℕ) (xs : List Bool)
    → length xs ≤ w + 1
    → length (if ltb w (length xs) then drop 1 xs else xs) ≤ w
length-trim w [] h = ground arith
length-trim w (x ∷ xs) h = ground arith

length-push_history :
    (x : Bool) (b : CircuitBreaker)
    → length b.call_history ≤ b.config.window_size
    → length (push_history x b) ≤ b.config.window_size
length-push_history x b h =
    length-trim b.config.window_size (b.call_history ++ (x ∷ []))
      (omega (arith, length-append b.call_history (x ∷ [])))

failures-trim-le :
    (w : ℕ) (xs : List Bool) → failures (if ltb w (length xs) then drop 1 xs else xs) ≤ failures xs
failures-trim-le w [] = ground arith
failures-trim-le w (x ∷ xs) = ground arith

-- A success can only push failures out of the window.
failures-push_success-le :
    (b : CircuitBreaker) → failures (push_history true b) ≤ failures b.call_history
failures-push_success-le b = omega (
  arith,
  failures-trim-le b.config.window_size (b.call_history ++ (true ∷ [])),
  count-append not b.call_history (true ∷ []),
)

note_success-IsInert : (b : CircuitBreaker) → IsInert b → IsInert (note_success b)
unfolding note_success
note_success-IsInert b h = record {
  never_left = h.never_left;
  no_changes = h.no_changes;
  no_rejections = h.no_rejections;
  windowed = length-push_history true b h.windowed;
  balanced = omega (arith, h.balanced);
}

note_failure-IsInert : (now : ℕ) (b : CircuitBreaker) → IsInert b → IsInert (note_failure now b)
unfolding note_failure
note_failure-IsInert now b h = record {
  never_left = h.never_left;
  no_changes = h.no_changes;
  no_rejections = h.no_rejections;
  windowed = length-push_history false b h.windowed;
  balanced = omega (arith, h.balanced);
}

trips-note_success : (b : CircuitBreaker) → trips b ≡ false → trips (note_success b) ≡ false
unfolding note_success
trips-note_success b h = ground (arith, failures-push_success-le b)

-- The lock is taken exactly when the failures in the window have reached the threshold.
pub record IsTrapped (config : CircuitBreakerConfig) (g : Guarded CircuitBreaker) : Type 0 where
  pub inert : IsInert g.object
  pub same_config : g.object.config ≡ config
  pub lock_iff : g.locked ≡ trips g.object

module _ (config : CircuitBreakerConfig) where
  success_step :
      (changed : ℕ) (l : Bool) (b : CircuitBreaker)
      → IsTrapped config (record { locked = l; object = b })
      → IsTrapped config (record_success changed (record { locked = l; object = b })).1
  success_step changed true b h = unfold record_success in h
  success_step changed false b h = rw (record_success_closed changed b h.inert.never_left) (record {
    inert = note_success-IsInert b h.inert;
    same_config = unfold note_success in h.same_config;
    lock_iff = sym (trips-note_success b (sym h.lock_iff));
  })

  failure_step :
      (now changed : ℕ) (l : Bool) (b : CircuitBreaker)
      → IsTrapped config (record { locked = l; object = b })
      → IsTrapped config (record_failure now changed (record { locked = l; object = b })).1
  failure_step now changed true b h = unfold record_failure in h
  failure_step now changed false b h = elim (Bool-cases (trips (note_failure now b))) [
    | inl full ↦ rw (record_failure_full now changed b h.inert.never_left full) (record {
      inert = note_failure-IsInert now b h.inert;
      same_config = unfold note_failure in h.same_config;
      lock_iff = sym full;
    })
    | inr room ↦ rw (record_failure_room now changed b h.inert.never_left room) (record {
      inert = note_failure-IsInert now b h.inert;
      same_config = unfold note_failure in h.same_config;
      lock_iff = sym room;
    })
  ]

  admit_step :
      (now changed : ℕ) (l : Bool) (b : CircuitBreaker)
      → IsTrapped config (record { locked = l; object = b })
      → IsTrapped config (admit now changed (record { locked = l; object = b })).1
  admit_step now changed true b h = rw (admit-stuck now changed b) h
  admit_step now changed false b h = rw (admit_closed now changed b h.inert.never_left) h

  system_step : {s t : System} → Step s t → IsTrapped config s.breaker → IsTrapped config t.breaker
  system_step {s} (enter now changed ok) h =
      admit_step now changed s.breaker.locked s.breaker.object h
  system_step {s} (refuse now changed no_entry) h =
      admit_step now changed s.breaker.locked s.breaker.object h
  system_step {s} (succeed changed busy) h =
      success_step changed s.breaker.locked s.breaker.object h
  system_step {s} (fail now changed busy) h =
      failure_step now changed s.breaker.locked s.breaker.object h

-- However many tasks call, in whatever order and at whatever times, a breaker with a positive
-- failure threshold never leaves the closed state and changes state never. Its history fits the
-- window, its counters add up and it counts no rejection. Its lock is taken exactly when the
-- failures in the window have reached the threshold.
pub reach_never_opens :
    (config : CircuitBreakerConfig) (start : ℕ) {s : System}
    → 0 < config.failure_threshold
    → Reach config start s
    → IsTrapped config s.breaker
unfolding init
reach_never_opens config start positive here = record {
  inert = record {
    never_left = refl;
    no_changes = refl;
    no_rejections = refl;
    windowed = omega arith;
    balanced = refl;
  };
  same_config = refl;
  lock_iff = ground arith;
}
reach_never_opens config start positive (next r st) =
    system_step config st (reach_never_opens config start positive r)
