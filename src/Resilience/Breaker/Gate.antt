-- ===== src/Resilience/Breaker/Gate.antt =====
-- Which calls reach their function, in every state of the breaker.
use self_optimizing_competit.Base.{
  ℕ, ◌+◌, ◌*◌, ◌≤◌, ◌≡◌, Bool, false, not, ◌&&◌, ◌||◌, arith, leb, ltb, if◌then◌else◌,
}
use self_optimizing_competit.RateLimit.Metrics.{second}
use self_optimizing_competit.Resilience.Coroutine.{returned, raised, Error}
use self_optimizing_competit.Resilience.Breaker.{
  CircuitBreaker, half_open, is_open, is_half_open, is_closed, admit,
}
use self_optimizing_competit.Resilience.Breaker.Recording.{unlocked}

abbrev pub timed_out : ℕ → CircuitBreaker → Bool
timed_out now b = leb (b.last_state_change + b.config.timeout_seconds * second) now

-- A closed circuit lets every call through, an open one the first probe after the timeout, a
-- half-open one as many probes as are left.
abbrev pub allows : ℕ → CircuitBreaker → Bool
allows now b =
    is_closed b.state
    || (is_open b.state && (timed_out now b && ltb 0 b.config.half_open_max_calls))
    || (is_half_open b.state && ltb b.half_open_calls b.config.half_open_max_calls)

-- With the lock free, a call reaches its function exactly if the gate allows it, and raises
-- otherwise: "open" before the timeout, "half-open at max calls" else. The lock is free afterwards,
-- the history is untouched, no more probes are counted than the configuration allows, and only a
-- timeout of an open circuit changes the state, to half-open.
pub admit_exact :
    (now changed : ℕ) (b : CircuitBreaker)
    → b.half_open_calls ≤ b.config.half_open_max_calls
    → let (r, g) = admit now changed (unlocked b) in
      (r ≡ (
        if allows now b
        then returned tt
        else raised (
            if is_open b.state && not (timed_out now b)
            then Error.circuit_open
            else Error.half_open_full)))
      × (g.locked ≡ false)
      × (g.object.call_history ≡ b.call_history)
      × (g.object.half_open_calls ≤ g.object.config.half_open_max_calls)
      × (g.object.state ≡ (if is_open b.state && timed_out now b then half_open else b.state))
unfolding admit
admit_exact now changed b h = (ground arith, ground arith, ground arith, ground arith, ground arith)
