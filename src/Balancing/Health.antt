-- ===== src/Balancing/Health.antt =====
-- `HealthChecker` of core/infrastructure/distributed/load_balancing.py: what the loop does with the
-- result of each check. The HTTP request that gives the result is an argument, and so is the clock.
-- No other task changes the registry during a round.
pub mod Thresholds
use self_optimizing_competit.Base.{
  ℕ, ◌+◌, Bool, true, false, Option, none, some, String, List, [], ◌∷◌, leb, if◌then◌else◌,
}
use self_optimizing_competit.Base.Dict.{Dict, lookup, insert}
use self_optimizing_competit.Balancing.Registry.{
  ServiceHealth, ServiceInstance, ServiceRegistry, update_health, list_all,
}

pub record HealthCheckConfig : Type 0 where
  pub enabled : Bool
  pub interval_seconds : ℕ
  pub timeout_seconds : ℕ
  pub unhealthy_threshold : ℕ
  pub healthy_threshold : ℕ
  pub method : String
  pub path : String
  pub expected_status : ℕ

-- The registry is passed beside it; the task of the loop is left out.
pub record HealthChecker : Type 0 where
  pub config : HealthCheckConfig
  pub failure_counts : Dict ℕ
  pub success_counts : Dict ℕ

unfoldable pub init : HealthCheckConfig → HealthChecker
init config = record { config = config; failure_counts = []; success_counts = [] }

abbrev pub or_zero : Option ℕ → ℕ
or_zero none = 0
or_zero (some n) = n

-- `counts.get(id, 0)`
abbrev pub count_of : String → Dict ℕ → ℕ
count_of id counts = or_zero (lookup id counts)

abbrev pub State : Type 0
State = HealthChecker × ServiceRegistry

unfoldable pub note_healthy : ℕ → String → State → State
note_healthy now id (c, s) =
    let n = count_of id c.success_counts + 1 in
    (
      record c {
        failure_counts = insert id 0 c.failure_counts;
        success_counts = insert id n c.success_counts;
      },
      if leb c.config.healthy_threshold n
          then (update_health now id ServiceHealth.healthy s).1
          else s,
    )

unfoldable pub note_unhealthy : ℕ → String → State → State
note_unhealthy now id (c, s) =
    let n = count_of id c.failure_counts + 1 in
    (
      record c {
        success_counts = insert id 0 c.success_counts;
        failure_counts = insert id n c.failure_counts;
      },
      if leb c.config.unhealthy_threshold n
          then (update_health now id ServiceHealth.unhealthy s).1
          else s,
    )

-- The body of the loop over the instances.
abbrev pub note : Bool → ℕ → String → State → State
note true now id x = note_healthy now id x
note false now id x = note_unhealthy now id x

-- One round: `check` is `_check_instance`.
unfoldable pub check_all : (ServiceInstance → Bool) → ℕ → List ℕ → State → State
check_all check now [] x = x
check_all check now (r ∷ refs) (c, s) =
    check_all check now refs (note (check (s.heap r)) now (s.heap r).id (c, s))

unfoldable pub check_round : (ServiceInstance → Bool) → ℕ → State → State
check_round check now (c, s) = check_all check now (list_all s) (c, s)
