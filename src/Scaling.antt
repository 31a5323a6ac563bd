-- ===== src/Scaling.antt =====
-- `ScalingOrchestrator` of core/infrastructure/scaling/orchestration.py: policies, metrics, scaling to
-- a count, and the evaluation loop, one pass at a time. Times are microseconds, counts and metric
-- values are not negative, and the texts of reasons and the random identifiers are left out.
pub mod History
pub mod Evaluation
mod Examples
use Prim.Native.String.{◌++◌ as join}
use self_optimizing_competit.Base.{
  ℕ, zero, suc, ◌+◌, ◌-◌, ◌*◌, max, min, Bool, true, false, not, ◌&&◌, Option, none, some, String,
  List, [], ◌∷◌, ◌++◌, length, drop, keep, ltb, leb, ◌==◌, if◌then◌else◌,
}
use self_optimizing_competit.Base.Dict.{Dict, lookup, contains, insert, erase, key_eq}
use self_optimizing_competit.RateLimit.Metrics.{second}

pub data ScalingAction : Type 0 where
  scale_up scale_down maintain : ScalingAction

pub record ScalingPolicy : Type 0 where
  pub id : String
  pub service_name : String
  pub scale_up_threshold : ℕ
  pub scale_down_threshold : ℕ
  pub min_instances : ℕ
  pub max_instances : ℕ
  pub scale_up_increment : ℕ
  pub scale_down_increment : ℕ
  pub cooldown_seconds : ℕ
  pub enabled : Bool
  pub evaluation_periods : ℕ

pub record ScalingEvent : Type 0 where
  pub service_name : String
  pub action : ScalingAction
  pub previous_count : ℕ
  pub new_count : ℕ
  pub policy_id : String

pub record InstanceDeployment : Type 0 where
  pub service_name : String
  pub image : String
  pub version : String
  pub status : String

pub record OrchestrationStats : Type 0 where
  pub total_instances : ℕ
  pub running_instances : ℕ
  pub scaling_events : ℕ
  pub last_scaling_event : Option ℕ

pub record ScalingOrchestrator : Type 0 where
  pub policies : Dict ScalingPolicy
  pub current_instances : Dict ℕ
  pub scaling_events : List ScalingEvent
  pub deployments : Dict (List InstanceDeployment)
  pub last_scaling_time : Dict ℕ
  pub metric_history : Dict (List ℕ)
  pub stats : OrchestrationStats

unfoldable pub init : ScalingOrchestrator
init = record {
  policies = [];
  current_instances = [];
  scaling_events = [];
  deployments = [];
  last_scaling_time = [];
  metric_history = [];
  stats = record {
    total_instances = 0;
    running_instances = 0;
    scaling_events = 0;
    last_scaling_event = none;
  };
}

unfoldable pub add_policy : ScalingPolicy → ScalingOrchestrator → ScalingOrchestrator
add_policy p o = record o {
  policies = insert p.id p o.policies;
  current_instances = insert p.service_name p.min_instances o.current_instances;
  metric_history = insert p.service_name [] o.metric_history;
}

unfoldable pub update_policy : ScalingPolicy → ScalingOrchestrator → Bool × ScalingOrchestrator
update_policy p o =
    if contains p.id o.policies
    then (true, record o { policies = insert p.id p o.policies })
    else (false, o)

unfoldable pub remove_policy : String → ScalingOrchestrator → Bool × ScalingOrchestrator
remove_policy id o =
    if contains id o.policies
    then (true, record o { policies = erase id o.policies })
    else (false, o)

-- `d.get(k, [])`
abbrev pub or_none {ℓ} : {A : Type ℓ} → Option (List A) → List A
or_none none = []
or_none (some xs) = xs

-- `append`, and `pop(0)` past a hundred
abbrev pub push_metric : ℕ → List ℕ → List ℕ
push_metric x xs =
    let longer = xs ++ (x ∷ []) in if ltb 100 (length longer) then drop 1 longer else longer

unfoldable pub record_metric : String → ℕ → ScalingOrchestrator → ScalingOrchestrator
record_metric service x o = record o {
  metric_history =
      insert service (push_metric x (or_none (lookup service o.metric_history))) o.metric_history;
}

abbrev pub or_count : ℕ → Option ℕ → ℕ
or_count d none = d
or_count d (some n) = n

unfoldable pub get_instance_count : String → ScalingOrchestrator → ℕ
get_instance_count service o = or_count 0 (lookup service o.current_instances)

-- The first policy of a service.
abbrev pub policy_for : String → Dict ScalingPolicy → Option ScalingPolicy
policy_for service [] = none
policy_for service ((id, p) ∷ ps) =
    let rest = policy_for service ps in if key_eq p.service_name service then some p else rest

-- `max(min_instances, min(target, max_instances))`
abbrev pub clamp : ScalingPolicy → ℕ → ℕ
clamp p target = max p.min_instances (min target p.max_instances)

abbrev pub action_of : ℕ → ℕ → ScalingAction
action_of previous target =
    if target == previous
    then ScalingAction.maintain
    else if ltb previous target
    then ScalingAction.scale_up
    else ScalingAction.scale_down

abbrev pub launch : String → InstanceDeployment
launch service = record {
  service_name = service;
  image = join service ":latest";
  version = "latest";
  status = "running";
}

abbrev pub repeat {ℓ} : {A : Type ℓ} → ℕ → A → List A
repeat zero x = []
repeat (suc n) x = x ∷ repeat n x

abbrev pub first_of {ℓ} : {A : Type ℓ} → ℕ → List A → List A
first_of zero xs = []
first_of (suc n) [] = []
first_of (suc n) (x ∷ xs) = x ∷ first_of n xs

-- The instances after a change: `xs[:-excess]` keeps the first ones.
abbrev pub resize : String → ℕ → List InstanceDeployment → List InstanceDeployment
resize service target xs =
    if ltb (length xs) target
    then xs ++ repeat (target - length xs) (launch service)
    else if ltb target (length xs)
    then first_of (length xs - (length xs - target)) xs
    else xs

-- `_execute_scaling`
unfoldable pub execute_scaling : String → ℕ → ScalingOrchestrator → ScalingOrchestrator
execute_scaling service target o = record o {
  deployments =
      insert service (resize service target (or_none (lookup service o.deployments))) o.deployments;
}

abbrev pub scale_to :
    ℕ → String → ℕ → ScalingPolicy → ScalingOrchestrator → ScalingEvent × ScalingOrchestrator
scale_to now service count p o =
    let previous = or_count 0 (lookup service o.current_instances) in
    let event : ScalingEvent = record {
      service_name = service;
      action = action_of previous count;
      previous_count = previous;
      new_count = count;
      policy_id = p.id;
    } in
    let scaled = execute_scaling service count o in
    (
      event,
      record scaled {
        current_instances = insert service count scaled.current_instances;
        last_scaling_time = insert service now scaled.last_scaling_time;
        scaling_events = scaled.scaling_events ++ (event ∷ []);
        stats = record scaled.stats {
          scaling_events = scaled.stats.scaling_events + 1;
          last_scaling_event = some now;
        };
      },
    )

-- `none` is the ValueError for a service without a policy. The scaling itself cannot fail.
unfoldable pub scale_service :
    ℕ → String → ℕ → ScalingOrchestrator → Option (ScalingEvent × ScalingOrchestrator)
scale_service now service target o = elim (policy_for service o.policies) [
  | none ↦ none
  | some p ↦ some (scale_to now service (clamp p target) p o)
]

abbrev pub cooling : ℕ → ScalingPolicy → Option ℕ → Bool
cooling now p none = false
cooling now p (some last) = ltb now (last + p.cooldown_seconds * second)

-- `metrics[-n:]`, which is all of them at n = 0
abbrev pub recent : ℕ → List ℕ → List ℕ
recent n xs = if n == 0 then xs else drop (length xs - n) xs

abbrev pub sum : List ℕ → ℕ
sum [] = 0
sum (x ∷ xs) = x + sum xs

-- What the loop does with a policy: nothing, divide by zero, or ask for a count.
pub data Verdict : Type 0 where
  skip : Verdict
  divide_by_zero : Verdict
  ask : ℕ → Verdict

-- The comparison of the average with the thresholds, without the division.
abbrev pub judge : ScalingPolicy → ℕ → List ℕ → Verdict
judge p current [] = divide_by_zero
judge p current xs =
    if ltb (p.scale_up_threshold * length xs) (sum xs)
    then ask (min (current + p.scale_up_increment) p.max_instances)
    else if ltb (sum xs) (p.scale_down_threshold * length xs)
    then ask (max (current - p.scale_down_increment) p.min_instances)
    else skip

unfoldable pub evaluate : ℕ → ScalingPolicy → ScalingOrchestrator → Verdict
evaluate now p o =
    let metrics = or_none (lookup p.service_name o.metric_history) in
    let current = or_count p.min_instances (lookup p.service_name o.current_instances) in
    if not p.enabled
    then skip
    else if cooling now p (lookup p.service_name o.last_scaling_time)
    then skip
    else if ltb (length metrics) p.evaluation_periods
    then skip
    else judge p current (recent p.evaluation_periods metrics)

-- An exception ends the pass, whatever policies are left.
abbrev pub outcome_of :
    Option (ScalingEvent × ScalingOrchestrator) → ScalingOrchestrator → Bool × ScalingOrchestrator
outcome_of none o = (false, o)
outcome_of (some (event, o')) o = (true, o')

abbrev pub apply_verdict :
    ℕ → ScalingPolicy → Verdict → ScalingOrchestrator → Bool × ScalingOrchestrator
apply_verdict now p skip o = (true, o)
apply_verdict now p divide_by_zero o = (false, o)
apply_verdict now p (ask count) o = outcome_of (scale_service now p.service_name count o) o

abbrev pub go_on :
    (ScalingOrchestrator → ScalingOrchestrator) → Bool × ScalingOrchestrator → ScalingOrchestrator
go_on rest (true, o) = rest o
go_on rest (false, o) = o

abbrev pub evaluate_all : ℕ → List ScalingPolicy → ScalingOrchestrator → ScalingOrchestrator
evaluate_all now [] o = o
evaluate_all now (p ∷ ps) o =
    go_on (λ o'. evaluate_all now ps o') (apply_verdict now p (evaluate now p o) o)

abbrev pub policies_of : Dict ScalingPolicy → List ScalingPolicy
policies_of [] = []
policies_of ((id, p) ∷ ps) = p ∷ policies_of ps

-- One pass of `_scaling_loop`, with one reading of the clock and no other task in between
unfoldable pub scaling_pass : ℕ → ScalingOrchestrator → ScalingOrchestrator
scaling_pass now o = evaluate_all now (policies_of o.policies) o

abbrev pub last_hundred : List ScalingEvent → List ScalingEvent
last_hundred es = drop (length es - 100) es

-- No name, or an empty one, asks for the events of all services.
unfoldable pub get_scaling_events : String → ScalingOrchestrator → List ScalingEvent
get_scaling_events service o = last_hundred (
    if key_eq service ""
    then o.scaling_events
    else keep (λ e. key_eq e.service_name service) o.scaling_events)

abbrev pub total_count : Dict ℕ → ℕ
total_count [] = 0
total_count ((k, n) ∷ d) = n + total_count d

abbrev pub total_length : Dict (List InstanceDeployment) → ℕ
total_length [] = 0
total_length ((k, xs) ∷ d) = length xs + total_length d

unfoldable pub get_stats : ScalingOrchestrator → ScalingOrchestrator
get_stats o = record o {
  stats = record o.stats {
    total_instances = total_count o.current_instances;
    running_instances = total_length o.deployments;
  };
}
