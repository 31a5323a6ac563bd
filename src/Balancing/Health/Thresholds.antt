-- ===== src/Balancing/Health/Thresholds.antt =====
-- When the checks of an instance change its status.
use self_optimizing_competit.Base.{
  ℕ, suc, ◌+◌, ◌≡◌, Bool, true, false, some, String, List, [], ◌∷◌, arith, leb, if◌then◌else◌,
}
use self_optimizing_competit.Base.Dict.{lookup, lookup-insert_self}
use self_optimizing_competit.Balancing.Registry.{ServiceHealth, ServiceRegistry, update_health}
use self_optimizing_competit.Balancing.Health.{
  HealthCheckConfig, HealthChecker, State, count_of, note_healthy, note_unhealthy, note,
}

-- The results of the checks of an instance, newest first, and how many of the newest agree.
abbrev pub streak : Bool → List Bool → ℕ
streak b [] = 0
streak true (true ∷ rs) = suc (streak true rs)
streak false (false ∷ rs) = suc (streak false rs)
streak _ (_ ∷ rs) = 0

-- The status changes with a streak that reaches its threshold, and holds until then.
abbrev pub verdict : HealthCheckConfig → ServiceHealth → List Bool → ServiceHealth
verdict config first [] = first
verdict config first (true ∷ rs) =
    let before = verdict config first rs in
    if leb config.healthy_threshold (streak true (true ∷ rs)) then ServiceHealth.healthy else before
verdict config first (false ∷ rs) =
    let before = verdict config first rs in
    if leb config.unhealthy_threshold (streak false (false ∷ rs))
    then ServiceHealth.unhealthy
    else before

-- The checks of the instance under `id`, each at its time.
abbrev pub after : String → List (Bool × ℕ) → State → State
after id [] x = x
after id ((result, now) ∷ rs) x = note result now id (after id rs x)

abbrev pub results : List (Bool × ℕ) → List Bool
results [] = []
results ((result, now) ∷ rs) = result ∷ results rs

-- What the checker and the registry hold of an instance after its checks.
pub record IsJudged (config : HealthCheckConfig) (id : String) (r : ℕ) (first : ServiceHealth)
    (rs : List Bool) (x : State) : Type 0 where
  pub same_config : x.0.config ≡ config
  pub successes : count_of id x.0.success_counts ≡ streak true rs
  pub failures : count_of id x.0.failure_counts ≡ streak false rs
  pub known : lookup id x.1.registry ≡ some r
  pub judged : (x.1.heap r).health_status ≡ verdict config first rs

module _ (config : HealthCheckConfig) (id : String) (r : ℕ) (first : ServiceHealth) where
  healthy_step :
      (now : ℕ) (rs : List Bool) (c : HealthChecker) (s : ServiceRegistry)
      → IsJudged config id r first rs (c, s)
      → IsJudged config id r first (true ∷ rs) (note_healthy now id (c, s))
  unfolding note_healthy update_health
  healthy_step now rs c s h = ground (
    arith,
    lookup-insert_self id 0 c.failure_counts,
    lookup-insert_self id (count_of id c.success_counts + 1) c.success_counts,
  )

  unhealthy_step :
      (now : ℕ) (rs : List Bool) (c : HealthChecker) (s : ServiceRegistry)
      → IsJudged config id r first rs (c, s)
      → IsJudged config id r first (false ∷ rs) (note_unhealthy now id (c, s))
  unfolding note_unhealthy update_health
  unhealthy_step now rs c s h = ground (
    arith,
    lookup-insert_self id 0 c.success_counts,
    lookup-insert_self id (count_of id c.failure_counts + 1) c.failure_counts,
  )

  note-IsJudged :
      (result : Bool) (now : ℕ) (rs : List Bool) (x : State)
      → IsJudged config id r first rs x
      → IsJudged config id r first (result ∷ rs) (note result now id x)
  note-IsJudged true now rs (c, s) h = healthy_step now rs c s h
  note-IsJudged false now rs (c, s) h = unhealthy_step now rs c s h

  -- Of an instance that stays registered, after any checks from a checker that has no counts of it:
  -- the counters hold how many of the newest checks agree, and the status is the one it began with
  -- until so many checks in a row succeeded, or failed, as the threshold asks for, which makes it
  -- healthy, or unhealthy, until the other threshold is met.
  pub after-IsJudged :
      (rs : List (Bool × ℕ)) (x : State)
      → IsJudged config id r first [] x
      → IsJudged config id r first (results rs) (after id rs x)
  after-IsJudged [] x h = h
  after-IsJudged ((result, now) ∷ rs) x h =
      note-IsJudged result now (results rs) (after id rs x) (after-IsJudged rs x h)
