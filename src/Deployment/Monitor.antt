-- ===== src/Deployment/Monitor.antt =====
-- `DeploymentMonitor` of core/infrastructure/deployment/pipeline.py. What a check answers is a
-- parameter; a check that raises answers nothing. The time of a verification is left out.
use self_optimizing_competit.Base.{
  ℕ, Bool, true, false, ◌&&◌, Option, none, some, String, List, [], ◌∷◌,
}
use self_optimizing_competit.Base.Dict.{Dict, insert}
use self_optimizing_competit.Deployment.{append_bounded, last_of}

pub record DeploymentMetric : Type 0 where
  pub deployment_id : String
  pub healthy : Bool
  pub checks : Dict Bool

pub record DeploymentMonitor (F : Type 0) : Type 0 where
  pub health_checks : Dict F
  pub deployment_metrics : List DeploymentMetric

abbrev or_false : Option Bool → Bool
or_false none = false
or_false (some b) = b

abbrev pub all_healthy : Dict Bool → Bool
all_healthy [] = true
all_healthy ((name, healthy) ∷ checks) = healthy && all_healthy checks

module _ {F : Type 0} where
  unfoldable pub init : DeploymentMonitor F
  init = record { health_checks = []; deployment_metrics = [] }

  unfoldable pub register_health_check : String → F → DeploymentMonitor F → DeploymentMonitor F
  register_health_check name check_fn m = record m {
    health_checks = insert name check_fn m.health_checks;
  }

  abbrev run_checks : (F → Option Bool) → Dict F → Dict Bool
  run_checks answer [] = []
  run_checks answer ((name, check_fn) ∷ checks) =
      (name, or_false (answer check_fn)) ∷ run_checks answer checks

  unfoldable pub run_health_checks : (F → Option Bool) → DeploymentMonitor F → Dict Bool
  run_health_checks answer m = run_checks answer m.health_checks

  unfoldable pub verify_deployment :
      (F → Option Bool) → String → DeploymentMonitor F → Bool × DeploymentMonitor F
  verify_deployment answer deployment_id m =
      let checks = run_health_checks answer m in
      let metrics : DeploymentMetric = record {
        deployment_id = deployment_id;
        healthy = all_healthy checks;
        checks = checks;
      } in
      (
        all_healthy checks,
        record m { deployment_metrics = append_bounded 10000 metrics m.deployment_metrics },
      )

  unfoldable pub get_deployment_metrics : ℕ → DeploymentMonitor F → List DeploymentMetric
  get_deployment_metrics limit m = last_of limit m.deployment_metrics
