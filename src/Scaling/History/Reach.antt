-- ===== src/Scaling/History/Reach.antt =====
-- Every history keeps the limits.
use self_optimizing_competit.Base.{ℕ, ◌≤◌, ◌≡◌, refl, none, some, String, arith}
use self_optimizing_competit.Base.Dict.{lookup}
use self_optimizing_competit.Scaling.{
  ScalingPolicy, ScalingEvent, ScalingOrchestrator, init, add_policy, remove_policy, record_metric,
  scale_service, policies_of, scaling_pass,
}
use self_optimizing_competit.Scaling.History.{IsScaled}
use self_optimizing_competit.Scaling.History.Steps.{
  add_policy-IsScaled, remove_policy-IsScaled, record_metric-IsScaled, scale_service-IsScaled,
  evaluate_all-IsScaled,
}

pub data Step (o : ScalingOrchestrator) : ScalingOrchestrator → Type 0 where
  added :
      (p : ScalingPolicy)
      → lookup p.id o.policies ≡ none
      → lookup p.service_name o.current_instances ≡ none
      → p.min_instances ≤ p.max_instances
      → Step o (add_policy p o)
  removed : (id : String) → Step o (remove_policy id o).1
  measured : (service : String) (x : ℕ) → Step o (record_metric service x o)
  scaled :
      (now : ℕ) (service : String) (target : ℕ) (event : ScalingEvent) {o' : ScalingOrchestrator}
      → scale_service now service target o ≡ some (event, o')
      → Step o o'
  passed : (now : ℕ) → Step o (scaling_pass now o)

pub data Reach : ScalingOrchestrator → Type 0 where
  here : Reach init
  next : {o o' : ScalingOrchestrator} → Reach o → Step o o' → Reach o'

step-IsScaled : {o o' : ScalingOrchestrator} → Step o o' → IsScaled o → IsScaled o'
unfolding scaling_pass
step-IsScaled {o} (added p fresh unused limits) h = add_policy-IsScaled p o fresh unused limits h
step-IsScaled {o} (removed id) h = remove_policy-IsScaled id o h
step-IsScaled {o} (measured service x) h = record_metric-IsScaled service x o h
step-IsScaled {o} {o'} (scaled now service target event e) h =
    scale_service-IsScaled now service target o o' event e h
step-IsScaled {o} (passed now) h = evaluate_all-IsScaled now (policies_of o.policies) o h

init-IsScaled : IsScaled init
unfolding init
init-IsScaled = record {
  single = λ s. omega arith;
  within = λ s p e. absurd (ground arith);
  running = λ s t e. absurd (ground arith);
  bounded = λ s. omega arith;
  counted = refl;
}

-- In every history of policies that are added for new services, each with a minimum that is not
-- above its maximum, of removals, metrics, scaling to any counts and passes of the loop: the
-- intended count of a service with a policy lies within the policy's limits, a service that was
-- ever scaled runs exactly its intended count, at most a hundred metrics are kept for each service,
-- and every scaling is counted.
pub reach-IsScaled : (o : ScalingOrchestrator) → Reach o → IsScaled o
reach-IsScaled o here = init-IsScaled
reach-IsScaled o (next r st) = step-IsScaled st (reach-IsScaled _ r)
