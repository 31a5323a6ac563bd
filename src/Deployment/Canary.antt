-- ===== src/Deployment/Canary.antt =====
-- `CanaryDeployment` of core/infrastructure/deployment/pipeline.py. A percentage is a float there;
-- here it is exact, a number of steps of which `unit` make one percent, for any `unit`: with a unit
-- of 2, an increment of 0.5 percent is 1. The rounding of floats is left out, and increments are not
-- negative. The increment and the interval that a canary is started with are left out: the code
-- does not keep them.
pub mod Completion
use self_optimizing_competit.Base.{
  ℕ, ◌+◌, ◌*◌, min, Bool, true, false, Option, none, some, String, [], leb, if◌then◌else◌,
}
use self_optimizing_competit.Base.Dict.{Dict, lookup, contains, insert, erase}

pub record CanaryDeployment : Type 0 where
  pub active_deployments : Dict ℕ

unfoldable pub init : CanaryDeployment
init = record { active_deployments = [] }

unfoldable pub start_canary : String → ℕ → CanaryDeployment → CanaryDeployment
start_canary deployment_id initial_traffic_percentage c = record c {
  active_deployments = insert deployment_id initial_traffic_percentage c.active_deployments;
}

abbrev pub shift : ℕ → String → ℕ → CanaryDeployment → Option ℕ × CanaryDeployment
shift unit deployment_id new_percentage c =
    let written = insert deployment_id new_percentage c.active_deployments in
    (
      some new_percentage,
      record c {
        active_deployments =
            if leb (100 * unit) new_percentage then erase deployment_id written else written;
      },
    )

unfoldable pub increment_canary : ℕ → String → ℕ → CanaryDeployment → Option ℕ × CanaryDeployment
increment_canary unit deployment_id increment c = elim (lookup deployment_id c.active_deployments) [
  | none ↦ (none, c)
  | some percentage ↦ shift unit deployment_id (min (100 * unit) (percentage + increment)) c
]

unfoldable pub get_traffic_percentage : String → CanaryDeployment → Option ℕ
get_traffic_percentage deployment_id c = lookup deployment_id c.active_deployments

unfoldable pub abort_canary : String → CanaryDeployment → Bool × CanaryDeployment
abort_canary deployment_id c =
    if contains deployment_id c.active_deployments
    then (true, record c { active_deployments = erase deployment_id c.active_deployments })
    else (false, c)
