-- ===== src/Resilience/Examples.antt =====
-- Runs on small inputs, and each theorem at an input that meets its hypotheses.
use self_optimizing_competit.Base.{
  ℕ, zero, suc, ◌+◌, ◌-◌, ◌*◌, ◌^◌, ◌≤◌, ◌<◌, ◌≡◌, ◌≢◌, refl, true, false, none, some, [], ◌∷◌,
  ◌++◌, arith, if◌then◌else◌,
}
use self_optimizing_competit.RateLimit.Metrics.{second}
use self_optimizing_competit.Resilience.Coroutine.{returned, raised, blocked, Error}
use self_optimizing_competit.Resilience.Breaker
use self_optimizing_competit.Resilience.Breaker.{
  CircuitBreaker, CircuitBreakerConfig, closed, opened, half_open, Readings, note_success,
  note_failure, no_metrics, trips, admit, call,
}
use self_optimizing_competit.Resilience.Breaker.Recording.{
  unlocked, stuck, call_closed, trip_blocks_all,
}
use self_optimizing_competit.Resilience.Breaker.Reach
use self_optimizing_competit.Resilience.Breaker.Reach.{reach_never_opens, IsTrapped}
use self_optimizing_competit.Resilience.Breaker.Window.{newest, note_all, call_history_newest}
use self_optimizing_competit.Resilience.Breaker.Gate.{admit_exact, allows}
use self_optimizing_competit.Resilience.Bulkhead
use self_optimizing_competit.Resilience.Bulkhead.{Bulkhead, BulkheadConfig, enter}
use self_optimizing_competit.Resilience.Bulkhead.Capacity
use self_optimizing_competit.Resilience.Bulkhead.Capacity.{reach-IsSafe, IsSafe}
use self_optimizing_competit.Resilience.Retry.{
  plain, awaitable, wait_for, Attempt, Handler, execute,
}
use self_optimizing_competit.Resilience.Retry.Attempts.{execute-IsPaced, IsPaced}
use self_optimizing_competit.Resilience.Retry.Plain.{plain_never_returns}
use self_optimizing_competit.Resilience.Retry.Outcomes.{IsEnd, first_success, all_attempts_fail}

-- Two failures in a window of three open the circuit for five seconds.
abbrev config : CircuitBreakerConfig
config = record {
  failure_threshold = 2;
  success_threshold = 2;
  timeout_seconds = 5;
  half_open_max_calls = 1;
  window_size = 3;
}

abbrev at_start : Readings
at_start = record { entered = 10; probed = 11; failed = 12; changed = 13 }

abbrev a_day_on : Readings
a_day_on = record {
  entered = 86400 * second;
  probed = 86400 * second;
  failed = 86400 * second;
  changed = 86400 * second;
}

-- One failure short of the threshold.
abbrev failed_once : CircuitBreaker
failed_once = record {
  config = config;
  metrics = record no_metrics { failed_calls = 1; total_calls = 1; last_failure_time = some 5 };
  state = closed;
  last_state_change = 0;
  call_history = false ∷ [];
  half_open_calls = 0;
}

one_failure_call :
    (call {V = ℕ} at_start (returned 7) (unlocked failed_once)
      ≡ (returned 7, unlocked (note_success failed_once)))
    × (call {V = ℕ} at_start (raised Error.failure) (unlocked failed_once) ≡ (
        if trips (note_failure 12 failed_once)
        then (blocked, stuck (note_failure 12 failed_once))
        else (raised Error.failure, unlocked (note_failure 12 failed_once))))
    × (call {V = ℕ} at_start blocked (unlocked failed_once) ≡ (blocked, unlocked failed_once))
one_failure_call = call_closed at_start 7 Error.failure failed_once refl

two_failures_trip : trips (note_failure 12 failed_once) ≡ true
unfolding note_failure
two_failures_trip = refl

trip_blocks_all_example :
    let (r, g) = call {V = ℕ} at_start (raised Error.failure) (unlocked failed_once) in
    (r ≡ blocked)
    × (g.object.state ≡ closed)
    × (admit (86400 * second) (86400 * second) g ≡ (blocked, g))
    × (call {V = ℕ} a_day_on (returned 7) g ≡ (blocked, g))
trip_blocks_all_example =
    trip_blocks_all at_start a_day_on Error.failure (returned 7) failed_once refl two_failures_trip

one_in : Reach.System
unfolding Breaker.init admit
one_in = record { breaker = (admit 10 11 (Breaker.init config 0)).1; in_flight = 1 }

one_entered : Reach.Reach config 0 one_in
unfolding one_in Breaker.init admit
one_entered = Reach.next Reach.here (Reach.enter 10 11 refl)

reach_never_opens_example : IsTrapped config one_in.breaker
reach_never_opens_example = reach_never_opens config 0 (omega arith) one_entered

last_two_kept :
    (note_all 9 (true ∷ false ∷ true ∷ []) failed_once).call_history
    ≡ newest 3 ((false ∷ []) ++ (true ∷ false ∷ true ∷ []))
last_two_kept = call_history_newest 9 (false ∷ []) (true ∷ false ∷ true ∷ []) failed_once refl

abbrev opened_breaker : CircuitBreaker
opened_breaker = record failed_once { state = opened }

-- Six seconds on, the first probe goes through.
half_open_gate :
    let (r, g) = admit (6 * second) (6 * second) (unlocked opened_breaker) in
    (r ≡ (if allows (6 * second) opened_breaker then returned tt else raised Error.half_open_full))
    × (g.locked ≡ false)
    × (g.object.call_history ≡ false ∷ [])
    × (g.object.half_open_calls ≤ g.object.config.half_open_max_calls)
    × (g.object.state ≡ half_open)
half_open_gate = admit_exact (6 * second) (6 * second) opened_breaker (omega arith)

abbrev narrow : BulkheadConfig
narrow = record {
  name = "search";
  max_concurrent_calls = 1;
  max_wait_duration_seconds = 10;
  queue_capacity = 1;
}

one_waiting : Capacity.System
unfolding Bulkhead.init enter
one_waiting = record (Capacity.none_yet (enter (Bulkhead.init narrow)).1) { waiting = 1 }

one_arrived : Capacity.Reach ℕ narrow one_waiting
unfolding one_waiting Bulkhead.init enter
one_arrived = Capacity.next Capacity.here (Capacity.arrive refl)

reach-IsSafe_example : IsSafe narrow one_waiting × ((enter one_waiting.bulkhead).0 ≡ returned tt)
reach-IsSafe_example = reach-IsSafe ℕ narrow one_waiting one_arrived

-- Three attempts, without breaker and bulkhead.
abbrev bare : Handler
bare = record { circuit_breaker = none; bulkhead = none; max_retries = 3; retry_delay = 100 }

-- The same with a breaker and a bulkhead.
abbrev full : Handler
full = record bare {
  circuit_breaker = some (unlocked failed_once);
  bulkhead = some (Bulkhead.init narrow);
}

abbrev attempt : ℕ → Attempt ℕ
attempt zero = record { readings = at_start; wait = 0; result = raised Error.failure }
attempt _ = record { readings = at_start; wait = 0; result = returned (awaitable (returned 7)) }

abbrev plain_attempt : ℕ → Attempt ℕ
plain_attempt _ = record { readings = at_start; wait = 0; result = returned (plain 7) }

execute-IsPaced_example :
    let r = execute attempt none full in
    IsPaced 100 0 3 r × (Bulkhead.sum r.delays + 100 ≡ 100 * 2 ^ (r.attempts - 1))
execute-IsPaced_example = execute-IsPaced attempt none full

plain_never_returns_example : (execute plain_attempt none full).outcome ≢ returned 7
plain_never_returns_example = plain_never_returns plain_attempt full 7 (λ a. tt)

first_fails : (a : ℕ) → a < 1 → (wait_for (attempt a).result) ≡ raised Error.failure
first_fails zero h = refl
first_fails (suc a) h = absurd (omega arith)

third_attempt :
    ((execute attempt none bare).outcome ≡ returned 7) × ((execute attempt none bare).attempts ≡ 2)
third_attempt =
    first_success attempt (λ _. Error.failure) 1 7 none bare (refl, refl) (omega arith) first_fails
      refl

all_attempts_fail_example :
    IsEnd Error.type_error
      (some (returned 9))
      (execute plain_attempt (some (returned 9)) bare).outcome
    × ((execute plain_attempt (some (returned 9)) bare).attempts ≡ 3)
all_attempts_fail_example =
    all_attempts_fail plain_attempt (λ _. Error.type_error) 2 (some (returned 9)) bare (refl, refl)
      refl (λ a h. refl)
