-- ===== src/Resilience/Bulkhead/Capacity.antt =====
-- Overlapping calls of a bulkhead, in any order.
use self_optimizing_competit.Base.{
  ℕ, suc, ◌+◌, ◌-◌, ◌≤◌, ◌<◌, ◌≡◌, ◌≢◌, refl, some, List, [], ◌∷◌, arith, length, length-append,
}
use self_optimizing_competit.Resilience.Coroutine.{Outcome, returned, raised, blocked, Error}
use self_optimizing_competit.Resilience.Bulkhead.{
  Bulkhead, BulkheadConfig, init, enter, push_wait, acquire, expire, finish,
}

-- The bulkhead, the tasks that wait for a permit, those whose function runs, and how many calls of
-- each kind there have been: functions that returned, functions that raised, waits for a permit that
-- timed out, and functions that raised a TimeoutError themselves.
pub record System : Type 0 where
  pub bulkhead : Bulkhead
  pub waiting : ℕ
  pub running : ℕ
  pub succeeded : ℕ
  pub failed : ℕ
  pub gave_up : ℕ
  pub timed_out : ℕ

abbrev pub none_yet : Bulkhead → System
none_yet b = record {
  bulkhead = b;
  waiting = 0;
  running = 0;
  succeeded = 0;
  failed = 0;
  gave_up = 0;
  timed_out = 0;
}

-- A function has ended.
abbrev pub ended : {V : Type 0} → Outcome V → System → System
ended (returned v) s = record s { succeeded = suc s.succeeded }
ended (raised Error.timeout_error) s = record s {
  failed = suc s.failed;
  timed_out = suc s.timed_out;
}
ended (raised e) s = record s { failed = suc s.failed }
ended blocked s = s

pub data Step (V : Type 0) (s : System) : System → Type 0 where
  arrive :
      (enter s.bulkhead).0 ≡ returned tt
      → Step V s (record s { bulkhead = (enter s.bulkhead).1; waiting = suc s.waiting })
  turn_away :
      (enter s.bulkhead).0 ≢ returned tt → Step V s (record s { bulkhead = (enter s.bulkhead).1 })
  start :
      (wait : ℕ) (b : Bulkhead)
      → 0 < s.waiting
      → acquire wait s.bulkhead ≡ some b
      → Step V s (record s { bulkhead = b; waiting = s.waiting - 1; running = suc s.running })
  give_up :
      0 < s.waiting
      → Step V s (record s {
        bulkhead = expire s.bulkhead;
        waiting = s.waiting - 1;
        gave_up = suc s.gave_up;
      })
  end :
      (r : Outcome V)
      → r ≢ blocked
      → 0 < s.running
      → Step V s
          (record (ended r s) { bulkhead = (finish r s.bulkhead).1; running = s.running - 1 })

pub data Reach (V : Type 0) (config : BulkheadConfig) : System → Type 0 where
  here : Reach V config (none_yet (init config))
  next : {s t : System} → Reach V config s → Step V s t → Reach V config t

pub record IsSafe (config : BulkheadConfig) (s : System) : Type 0 where
  pub same_config : s.bulkhead.config ≡ config
  pub permits_left : s.bulkhead.permits + s.running ≡ config.max_concurrent_calls
  pub counted : s.bulkhead.metrics.active_calls ≡ s.running
  pub balanced : s.bulkhead.metrics.total_calls ≡ s.succeeded + s.failed + s.running
  pub successes : s.bulkhead.metrics.successful_calls ≡ s.succeeded
  pub failures : s.bulkhead.metrics.failed_calls ≡ s.failed
  pub rejections : s.bulkhead.metrics.rejected_calls ≡ s.gave_up + s.timed_out
  pub recent : length s.bulkhead.wait_times ≤ 100
  pub never_queued : s.bulkhead.queue_size ≡ 0

length-push_wait :
    (wait : ℕ) (times : List ℕ) → length times ≤ 100 → length (push_wait wait times) ≤ 100
length-push_wait wait [] h = ground arith
length-push_wait wait (t ∷ times) h = ground (arith, length-append times (wait ∷ []))

module _ (V : Type 0) (config : BulkheadConfig) where
  acquire-IsSafe :
      (wait : ℕ) (s : System) (b : Bulkhead)
      → acquire wait s.bulkhead ≡ some b
      → IsSafe config s
      → IsSafe config (record s { bulkhead = b; waiting = s.waiting - 1; running = suc s.running })
  unfolding acquire
  acquire-IsSafe wait s b e h = ground (arith, length-push_wait wait s.bulkhead.wait_times)

  finish-IsSafe :
      (r : Outcome V) (s : System)
      → r ≢ blocked
      → 0 < s.running
      → IsSafe config s
      → IsSafe config
          (record (ended r s) { bulkhead = (finish r s.bulkhead).1; running = s.running - 1 })
  unfolding finish
  finish-IsSafe (returned v) s n busy h = ground arith
  finish-IsSafe (raised e) s n busy h = ground arith
  finish-IsSafe blocked s n busy h = absurd (n refl)

  step-IsSafe : {s t : System} → Step V s t → IsSafe config s → IsSafe config t
  unfolding enter expire
  step-IsSafe (arrive ok) h = ground arith
  step-IsSafe (turn_away full) h = absurd (full (ground (arith, h.never_queued)))
  step-IsSafe {s} (start wait b waits e) h = acquire-IsSafe wait s b e h
  step-IsSafe (give_up waits) h = ground arith
  step-IsSafe {s} (end r ended busy) h = finish-IsSafe r s ended busy h

  init-IsSafe : IsSafe config (none_yet (init config))
  unfolding init
  init-IsSafe = ground arith

  reach_invariant : {s : System} → Reach V config s → IsSafe config s
  reach_invariant here = init-IsSafe
  reach_invariant (next r st) = step-IsSafe st (reach_invariant r)

  -- Whatever tasks call, time out and end in whatever order, with functions that return, raise or
  -- time out themselves: permits and running functions add up to `max_concurrent_calls`, so no more
  -- run at once; `active_calls` is the number that runs; `successful_calls` counts the functions that
  -- returned and `failed_calls` those that raised; `total_calls` is these and the running ones, and
  -- leaves out the calls that timed out before they got a permit; `rejected_calls` counts those, and
  -- the functions that raised a TimeoutError, which stand in `failed_calls` too. At most a hundred
  -- waiting times are kept. The test of the queue turns nobody away, whatever its capacity.
  pub reach-IsSafe :
      (s : System) → Reach V config s → IsSafe config s × ((enter s.bulkhead).0 ≡ returned tt)
  unfolding enter
  reach-IsSafe s r = let h = reach_invariant r in (h, ground (arith, h.never_queued))
