-- ===== src/Resilience/Breaker/Recording.antt =====
-- What a call does to a closed breaker, and to one whose lock is taken.
use self_optimizing_competit.Base.{ℕ, ◌≡◌, refl, true, false, arith, if◌then◌else◌}
use self_optimizing_competit.Resilience.Coroutine.{
  Outcome, returned, raised, blocked, Error, Guarded,
}
use self_optimizing_competit.Resilience.Breaker.{
  CircuitBreaker, closed, Readings, note_success, note_failure, trips, record_success,
  record_failure, admit, settle, call,
}

abbrev pub unlocked : CircuitBreaker → Guarded CircuitBreaker
unlocked b = record { locked = false; object = b }

-- A task that waits for the lock that it holds itself.
abbrev pub stuck : CircuitBreaker → Guarded CircuitBreaker
stuck b = record { locked = true; object = b }

pub record_success_closed :
    (changed : ℕ) (b : CircuitBreaker)
    → b.state ≡ closed
    → record_success changed (unlocked b) ≡ (returned tt, unlocked (note_success b))
unfolding record_success
record_success_closed changed b h = ground arith

pub record_failure_closed :
    (now changed : ℕ) (b : CircuitBreaker)
    → b.state ≡ closed
    → record_failure now changed (unlocked b) ≡ (
        if trips (note_failure now b)
        then (blocked, stuck (note_failure now b))
        else (returned tt, unlocked (note_failure now b)))
unfolding record_failure
record_failure_closed now changed b h = ground arith

pub record_failure_full :
    (now changed : ℕ) (b : CircuitBreaker)
    → b.state ≡ closed
    → trips (note_failure now b) ≡ true
    → record_failure now changed (unlocked b) ≡ (blocked, stuck (note_failure now b))
record_failure_full now changed b h full = ground (arith, record_failure_closed now changed b h)

pub record_failure_room :
    (now changed : ℕ) (b : CircuitBreaker)
    → b.state ≡ closed
    → trips (note_failure now b) ≡ false
    → record_failure now changed (unlocked b) ≡ (returned tt, unlocked (note_failure now b))
record_failure_room now changed b h room = ground (arith, record_failure_closed now changed b h)

pub admit_closed :
    (now changed : ℕ) (b : CircuitBreaker)
    → b.state ≡ closed
    → admit now changed (unlocked b) ≡ (returned tt, unlocked b)
unfolding admit
admit_closed now changed b h = ground arith

-- Whoever finds the lock taken waits for ever: the function is not called, and nothing changes.
pub admit-stuck :
    (now changed : ℕ) (b : CircuitBreaker) → admit now changed (stuck b) ≡ (blocked, stuck b)
unfolding admit
admit-stuck now changed b = refl

pub call-stuck :
    {V : Type 0} (t : Readings) (result : Outcome V) (b : CircuitBreaker)
    → call t result (stuck b) ≡ (blocked, stuck b)
unfolding call admit
call-stuck t result b = refl

call-trips :
    {V : Type 0} (t : Readings) (e : Error) (b : CircuitBreaker)
    → b.state ≡ closed
    → trips (note_failure t.failed b) ≡ true
    → call {V = V} t (raised e) (unlocked b) ≡ (blocked, stuck (note_failure t.failed b))
unfolding call settle
call-trips t e b h full =
    ground
      (arith, admit_closed t.entered t.probed b h, record_failure_closed t.failed t.changed b h)

-- A call through a closed breaker whose lock is free. A function that returns: the success is
-- recorded and its value handed on. One that raises: the failure is recorded, and if the window
-- then holds fewer failures than the threshold the exception is handed on; otherwise the call never
-- ends, and leaves the lock taken and the breaker closed. A function that never ends leaves the
-- breaker as it was.
pub call_closed :
    {V : Type 0} (t : Readings) (v : V) (e : Error) (b : CircuitBreaker)
    → b.state ≡ closed
    → (call t (returned v) (unlocked b) ≡ (returned v, unlocked (note_success b)))
      × (call {V = V} t (raised e) (unlocked b) ≡ (
          if trips (note_failure t.failed b)
          then (blocked, stuck (note_failure t.failed b))
          else (raised e, unlocked (note_failure t.failed b))))
      × (call {V = V} t blocked (unlocked b) ≡ (blocked, unlocked b))
unfolding call settle
call_closed {V} t v e b h =
    let admitted = admit_closed t.entered t.probed b h in
    let ended = record_success_closed t.changed b h in
    let failed = record_failure_closed t.failed t.changed b h in
    (ground (arith, admitted, ended), ground (arith, admitted, failed), ground (arith, admitted))

-- The failure that should open the circuit hangs instead: the call that reports it never ends, and
-- from then on no call ends or reaches its function, at any later time. The failed call finds a
-- closed breaker with its lock free, and fills the window up to the failure threshold.
pub trip_blocks_all :
    {V : Type 0} (t t' : Readings) (e : Error) (result : Outcome V) (b : CircuitBreaker)
    → b.state ≡ closed
    → trips (note_failure t.failed b) ≡ true
    → let (r, g) = call {V = V} t (raised e) (unlocked b) in
      (r ≡ blocked)
      × (g.object.state ≡ closed)
      × (admit t'.entered t'.probed g ≡ (blocked, g))
      × (call t' result g ≡ (blocked, g))
unfolding note_failure
trip_blocks_all t t' e result b h full =
    rw (call-trips t e b h full) (refl, h, admit-stuck _ _ _, call-stuck t' result _)
