-- ===== src/Resilience/Bulkhead.antt =====
-- `Bulkhead` of core/infrastructure/resilience/patterns.py, every method. Calls overlap, so
-- `execute` is cut where it suspends: before the semaphore, and while the function runs.
pub mod Capacity
use self_optimizing_competit.Base.{
  ℕ, ◌+◌, ◌-◌, Bool, true, false, not, ◌&&◌, Option, none, some, String, List, [], ◌∷◌, ◌++◌, ltb,
  leb, ◌==◌, length, drop, if◌then◌else◌,
}
use self_optimizing_competit.Resilience.Coroutine.{Outcome, returned, raised, blocked, Error}

pub record BulkheadConfig : Type 0 where
  pub name : String
  pub max_concurrent_calls : ℕ
  pub max_wait_duration_seconds : ℕ
  pub queue_capacity : ℕ

pub record BulkheadMetrics : Type 0 where
  pub active_calls : ℕ
  pub max_concurrent_calls : ℕ
  pub queued_calls : ℕ
  pub total_calls : ℕ
  pub rejected_calls : ℕ
  pub successful_calls : ℕ
  pub failed_calls : ℕ
  -- numerator and denominator of the float
  pub avg_wait_time : ℕ × ℕ

pub record Bulkhead : Type 0 where
  pub config : BulkheadConfig
  pub metrics : BulkheadMetrics
  pub permits : ℕ  -- the semaphore's value
  pub queue_size : ℕ
  pub wait_times : List ℕ

abbrev pub idle_metrics : ℕ → BulkheadMetrics
idle_metrics n = record {
  active_calls = 0;
  max_concurrent_calls = n;
  queued_calls = 0;
  total_calls = 0;
  rejected_calls = 0;
  successful_calls = 0;
  failed_calls = 0;
  avg_wait_time = (0, 1);
}

unfoldable pub init : BulkheadConfig → Bulkhead
init config = record {
  config = config;
  metrics = idle_metrics config.max_concurrent_calls;
  permits = config.max_concurrent_calls;
  queue_size = 0;
  wait_times = [];
}

-- `asyncio.Queue.full`: a queue of size 0 is unbounded
abbrev pub is_full : Bulkhead → Bool
is_full b = ltb 0 b.config.queue_capacity && leb b.config.queue_capacity b.queue_size

abbrev pub reject : Bulkhead → Bulkhead
reject b = record b { metrics = record b.metrics { rejected_calls = b.metrics.rejected_calls + 1 } }

-- The test of the queue.
unfoldable pub enter : Bulkhead → Outcome (Unit {0}) × Bulkhead
enter b = if is_full b then (raised Error.queue_full, reject b) else (returned tt, b)

abbrev pub sum : List ℕ → ℕ
sum [] = 0
sum (x ∷ xs) = x + sum xs

-- `append`, and `pop(0)` past a hundred
abbrev pub push_wait : ℕ → List ℕ → List ℕ
push_wait wait times =
    let longer = times ++ (wait ∷ []) in if ltb 100 (length longer) then drop 1 longer else longer

-- A task gets a permit of the semaphore after `wait`; `none` while there is none.
unfoldable pub acquire : ℕ → Bulkhead → Option Bulkhead
acquire wait b =
    let times = push_wait wait b.wait_times in
    if b.permits == 0
    then none
    else some (record b {
      permits = b.permits - 1;
      wait_times = times;
      metrics = record b.metrics {
        active_calls = b.metrics.active_calls + 1;
        total_calls = b.metrics.total_calls + 1;
        avg_wait_time = (sum times, length times);
      };
    })

-- The wait for a permit times out.
unfoldable pub expire : Bulkhead → Bulkhead
expire b = reject b

-- The `finally`: `active_calls` is positive here, so the truncated `-` is exact.
abbrev pub leave : Bulkhead → Bulkhead
leave b = record b {
  permits = b.permits + 1;
  metrics = record b.metrics { active_calls = b.metrics.active_calls - 1 };
}

-- Whether a call with no other task in between reaches its function.
abbrev pub admits : Bulkhead → Bool
admits b = not (is_full b) && not (b.permits == 0)

module _ {V : Type 0} where
  -- The counters of the result.
  abbrev pub count_result : Outcome V → BulkheadMetrics → BulkheadMetrics
  count_result (returned v) m = record m { successful_calls = m.successful_calls + 1 }
  count_result (raised e) m = record m { failed_calls = m.failed_calls + 1 }
  count_result blocked m = m

  -- The outer handler takes a TimeoutError of the function for one of the wait.
  abbrev pub hand_on : Outcome V → Bulkhead → Outcome V × Bulkhead
  hand_on (raised Error.timeout_error) b = (raised Error.bulkhead_timeout, reject b)
  hand_on r b = (r, b)

  -- The function has ended.
  unfoldable pub finish : Outcome V → Bulkhead → Outcome V × Bulkhead
  finish r b = hand_on r (leave (record b { metrics = count_result r b.metrics }))

  -- `execute` past the test of the queue, with no other task in between: without a permit the
  -- wait times out, and a function that never ends keeps its permit.
  unfoldable pub run_alone : ℕ → Outcome V → Bulkhead → Outcome V × Bulkhead
  run_alone wait r b = elim (acquire wait b) [
    | none ↦ (raised Error.bulkhead_timeout, expire b)
    | some b' ↦ elim r [
      | blocked ↦ (blocked, b')
      | returned v ↦ finish (returned v) b'
      | raised e ↦ finish (raised e) b'
    ]
  ]

  unfoldable pub execute : ℕ → Outcome V → Bulkhead → Outcome V × Bulkhead
  execute wait r b =
      let (entry, b') = enter b in
      elim entry [
        | returned _ ↦ run_alone wait r b'
        | raised e ↦ (raised e, b')
        | blocked ↦ (blocked, b')
      ]

-- `get_metrics`
unfoldable pub get_metrics : Bulkhead → BulkheadMetrics
get_metrics b = record (idle_metrics b.config.max_concurrent_calls) {
  active_calls = b.metrics.active_calls;
  total_calls = b.metrics.total_calls;
  rejected_calls = b.metrics.rejected_calls;
  successful_calls = b.metrics.successful_calls;
  failed_calls = b.metrics.failed_calls;
  avg_wait_time = b.metrics.avg_wait_time;
}
