-- ===== src/Resilience/Breaker.antt =====
-- `CircuitBreaker` of core/infrastructure/resilience/patterns.py, every method. Times are
-- microseconds; each reading of the clock is an argument. A call runs in two parts, `admit` before
-- the function is awaited and a `record_` after it; other tasks run in between.
pub mod Recording
pub mod Reach
pub mod Window
pub mod Gate
use self_optimizing_competit.Base.{
  ℕ, ◌+◌, ◌-◌, ◌*◌, Bool, true, false, not, ◌&&◌, Option, none, some, List, [], ◌∷◌, ◌++◌, ltb, leb,
  ◌==◌, length, drop, count, if◌then◌else◌,
}
use self_optimizing_competit.RateLimit.Metrics.{second}
use self_optimizing_competit.Resilience.Coroutine.{
  Outcome, returned, raised, blocked, Error, Action, Guarded, ◌>>=◌, ◌>>◌, pure, raise, gets,
  modify, when, with_lock,
}

pub data CircuitState : Type 0 where
  closed opened half_open : CircuitState

pub record CircuitBreakerConfig : Type 0 where
  pub failure_threshold : ℕ
  pub success_threshold : ℕ
  pub timeout_seconds : ℕ
  pub half_open_max_calls : ℕ
  pub window_size : ℕ

pub record CircuitBreakerMetrics : Type 0 where
  pub state : CircuitState
  pub total_calls : ℕ
  pub successful_calls : ℕ
  pub failed_calls : ℕ
  pub rejected_calls : ℕ
  pub last_failure_time : Option ℕ
  pub state_changes : ℕ
  pub half_open_calls : ℕ

pub record CircuitBreaker : Type 0 where
  pub config : CircuitBreakerConfig
  pub metrics : CircuitBreakerMetrics
  pub state : CircuitState
  pub last_state_change : ℕ
  pub call_history : List Bool
  pub half_open_calls : ℕ

abbrev pub no_metrics : CircuitBreakerMetrics
no_metrics = record {
  state = closed;
  total_calls = 0;
  successful_calls = 0;
  failed_calls = 0;
  rejected_calls = 0;
  last_failure_time = none;
  state_changes = 0;
  half_open_calls = 0;
}

-- `success_rate`, as numerator and denominator
unfoldable pub success_rate : CircuitBreakerMetrics → ℕ × ℕ
success_rate m =
    let total = m.successful_calls + m.failed_calls in
    if ltb 0 total then (m.successful_calls, total) else (0, 1)

unfoldable pub init : CircuitBreakerConfig → ℕ → Guarded CircuitBreaker
init config now = record {
  locked = false;
  object = record {
    config = config;
    metrics = no_metrics;
    state = closed;
    last_state_change = now;
    call_history = [];
    half_open_calls = 0;
  };
}

abbrev pub is_open : CircuitState → Bool
is_open opened = true
is_open _ = false

abbrev pub is_half_open : CircuitState → Bool
is_half_open half_open = true
is_half_open _ = false

abbrev pub is_closed : CircuitState → Bool
is_closed closed = true
is_closed _ = false

-- What `_transition` writes.
unfoldable pub enter_state : CircuitState → ℕ → CircuitBreaker → CircuitBreaker
enter_state new now b = record b {
  state = new;
  last_state_change = now;
  metrics = record b.metrics { state = new; state_changes = b.metrics.state_changes + 1 };
  half_open_calls = 0;
}

unfoldable pub transition : CircuitState → ℕ → Action CircuitBreaker (Unit {0})
transition new now = with_lock (modify (enter_state new now))

-- `self._call_history.append(x)`, and `pop(0)` past the window
abbrev pub push_history : Bool → CircuitBreaker → List Bool
push_history x b =
    let longer = b.call_history ++ (x ∷ []) in
    if ltb b.config.window_size (length longer) then drop 1 longer else longer

-- `xs[-n:]`, which is all of `xs` at n = 0
abbrev pub last_of : ℕ → List Bool → List Bool
last_of n xs = if n == 0 then xs else drop (length xs - n) xs

-- `sum(1 for x in history if x)`, and `if not x`
abbrev pub successes : List Bool → ℕ
successes = count (λ x. x)

abbrev pub failures : List Bool → ℕ
failures = count not

unfoldable pub note_success : CircuitBreaker → CircuitBreaker
note_success b = record b {
  metrics = record b.metrics {
    successful_calls = b.metrics.successful_calls + 1;
    total_calls = b.metrics.total_calls + 1;
  };
  call_history = push_history true b;
}

unfoldable pub note_failure : ℕ → CircuitBreaker → CircuitBreaker
note_failure now b = record b {
  metrics = record b.metrics {
    failed_calls = b.metrics.failed_calls + 1;
    total_calls = b.metrics.total_calls + 1;
    last_failure_time = some now;
  };
  call_history = push_history false b;
}

abbrev pub recovers : CircuitBreaker → Bool
recovers b =
    leb b.config.success_threshold (successes (last_of b.config.success_threshold b.call_history))

abbrev pub trips : CircuitBreaker → Bool
trips b = leb b.config.failure_threshold (failures b.call_history)

-- `_record_success`; the transition is awaited under the lock
unfoldable pub record_success : ℕ → Action CircuitBreaker (Unit {0})
unfolding note_success transition
record_success changed = with_lock do
  modify note_success
  b ← gets (λ b. b)
  when (is_half_open b.state) (when (recovers b) (transition closed changed))

-- `_record_failure`, likewise
unfoldable pub record_failure : ℕ → ℕ → Action CircuitBreaker (Unit {0})
unfolding note_failure transition
record_failure now changed = with_lock do
  modify (note_failure now)
  b ← gets (λ b. b)
  when (is_closed b.state) (when (trips b) (transition opened changed))
  when (is_half_open b.state) (transition opened changed)

-- The state that `call` goes on with: OPEN becomes HALF_OPEN after the timeout.
unfoldable pub probe : ℕ → ℕ → CircuitState → Action CircuitBreaker CircuitState
unfolding transition enter_state
probe now changed current = do
  b ← gets (λ b. b)
  if is_open current && leb (b.last_state_change + b.config.timeout_seconds * second) now
      then (transition half_open changed >> pure half_open)
      else pure current

-- The gate of HALF_OPEN.
unfoldable pub count_probe : Action CircuitBreaker (Unit {0})
count_probe = with_lock do
  b ← gets (λ b. b)
  if leb b.config.half_open_max_calls b.half_open_calls
      then raise Error.half_open_full
      else modify (λ b. record b {
        half_open_calls = b.half_open_calls + 1;
        metrics = record b.metrics { half_open_calls = b.metrics.half_open_calls + 1 };
      })

-- `call`, up to the function
unfoldable pub admit : ℕ → ℕ → Action CircuitBreaker (Unit {0})
unfolding probe count_probe
admit now changed = do
  current ← with_lock (gets (λ b. b.state))
  current' ← probe now changed current
  if is_open current' then raise Error.circuit_open else pure tt
  when (is_half_open current') count_probe

-- `call`, after the function has returned or raised
unfoldable pub settle : {V : Type 0} → ℕ → ℕ → Outcome V → Action CircuitBreaker V
settle now changed (returned v) = record_success changed >> pure v
settle now changed (raised e) = record_failure now changed >> raise e
settle now changed blocked = λ g. (blocked, g)

-- The four readings of the clock in a call.
pub record Readings : Type 0 where
  pub entered : ℕ
  pub probed : ℕ
  pub failed : ℕ
  pub changed : ℕ

-- `call` with no other task in between, of a function that ends in `result`
unfoldable pub call : {V : Type 0} → Readings → Outcome V → Action CircuitBreaker V
call t result = admit t.entered t.probed >> settle t.failed t.changed result

unfoldable pub get_state : Action CircuitBreaker CircuitState
get_state = with_lock (gets (λ b. b.state))

-- `get_metrics`; `rejected_calls` and `half_open_calls` keep their defaults
unfoldable pub get_metrics : Action CircuitBreaker CircuitBreakerMetrics
get_metrics = with_lock (
    gets (λ b. record no_metrics {
      state = b.state;
      total_calls = b.metrics.total_calls;
      successful_calls = b.metrics.successful_calls;
      failed_calls = b.metrics.failed_calls;
      last_failure_time = b.metrics.last_failure_time;
      state_changes = b.metrics.state_changes;
    }))
