-- ===== src/Balancing/Examples.antt =====
-- Runs on small inputs, and each theorem at an input that meets its hypotheses.
use self_optimizing_competit.Base.{
  ℕ, zero, suc, ◌+◌, ◌*◌, ◌%◌, ◌<◌, ◌≡◌, refl, Bool, true, false, none, String, List, [], ◌∷◌,
  arith, keep, length,
}
use self_optimizing_competit.Base.Dict.{IsDict}
use self_optimizing_competit.RateLimit.Metrics.{second}
use self_optimizing_competit.Balancing.Registry.{
  ServiceHealth, ServiceInstance, ServiceRegistry, Heap, init, register, deregister, get_instances,
  list_all,
}
use self_optimizing_competit.Balancing.Registry.Index
use self_optimizing_competit.Balancing.Registry.Index.{reach-IsIndexed, IsKeyed, of_service}
use self_optimizing_competit.Balancing.Selection
use self_optimizing_competit.Balancing.Selection.{
  LoadBalancer, LoadBalancingAlgorithm, found, pick, total, select_round_robin, select_sticky,
  select_instance,
}
use self_optimizing_competit.Balancing.Selection.Rotation
use self_optimizing_competit.Balancing.Selection.Rotation.{position, select_round_robin-after}
use self_optimizing_competit.Balancing.Selection.Available.{IsAnswer}
use self_optimizing_competit.Balancing.Selection.Answers.{IsDraw, select_instance-IsAnswer}
use self_optimizing_competit.Balancing.Selection.Sticky.{select_sticky_again}
use self_optimizing_competit.Balancing.Selection.Mean
use self_optimizing_competit.Balancing.Selection.Mean.{avg_response_time-Mean, failed, times}
use self_optimizing_competit.Balancing.Health.{HealthCheckConfig, HealthChecker}
use self_optimizing_competit.Balancing.Health.Thresholds
use self_optimizing_competit.Balancing.Health.Thresholds.{IsJudged, results, after-IsJudged}

abbrev server : String → String → ServiceInstance
server id name = record {
  id = id;
  name = name;
  host = "localhost";
  port = 8000;
  protocol = "http";
  weight = 1;
  tags = [];
  registered_at = 0;
  last_heartbeat = 0;
  health_status = ServiceHealth.healthy;
  connection_count = 0;
  request_count = 0;
  errors = 0;
  avg_response_time = (0, 1);
}

-- Two instances of one service.
abbrev heap : Heap
heap zero = server "a" "search"
heap (suc _) = server "b" "search"

abbrev two : ServiceRegistry
two = record {
  heap = heap;
  instances = ("search", 0 ∷ 1 ∷ []) ∷ [];
  registry = ("a", 0) ∷ ("b", 1) ∷ [];
}

two_registered : Index.Reach heap two
unfolding init register
two_registered =
    Index.next (Index.next Index.here (Index.registered 0 refl)) (Index.registered 1 refl)

one_left : Index.Reach heap (deregister "a" two).1
one_left = Index.next two_registered (Index.deregistered "a")

one_left_answers : get_instances "search" (deregister "a" two).1 ≡ 1 ∷ []
unfolding deregister
one_left_answers = refl

reach-IsIndexed_example :
    let s = (deregister "a" two).1 in
    IsDict s.registry
    × IsKeyed s.heap s.registry
    × ((name : String) → get_instances name s ≡ keep (of_service s.heap name) (list_all s))
reach-IsIndexed_example = reach-IsIndexed heap (deregister "a" two).1 one_left

abbrev balancer : LoadBalancer
unfolding Selection.init
balancer = Selection.init LoadBalancingAlgorithm.round_robin

select_round_robin-after_example :
    (select_round_robin "search" (0 ∷ 1 ∷ []) (Rotation.after 3 "search" (0 ∷ 1 ∷ []) balancer)).0
    ≡ pick (0 ∷ 1 ∷ []) ((position "search" balancer + 3) % 2)
select_round_robin-after_example = select_round_robin-after 3 "search" (0 ∷ 1 ∷ []) balancer

-- Hashes and draws that give the first instance.
abbrev first_hash : String → ℕ → ℕ
first_hash client n = 0

abbrev first_choice : ℕ → ℕ
first_choice n = 0

abbrev first_choices : List ℕ → ℕ
first_choices ws = 0

first_choices_in : (ws : List ℕ) → 0 < total ws → first_choices ws < length ws
first_choices_in [] h = absurd (omega arith)
first_choices_in (w ∷ ws) h = omega arith

first-IsDraw : IsDraw first_hash first_choice first_choices
first-IsDraw = record {
  hash_in = λ client n. omega arith;
  choice_in = λ n. omega arith;
  choices_in = first_choices_in;
}

select_instance-IsAnswer_example :
    IsAnswer second LoadBalancingAlgorithm.round_robin heap
      (get_instances "search" two)
      (select_instance first_hash first_choice first_choices second "search" none two balancer).0
unfolding balancer Selection.init
select_instance-IsAnswer_example =
    select_instance-IsAnswer first_hash first_choice first_choices second "search" none two balancer
      first-IsDraw

-- The first of three goes; the session stays with the second.
session_stays :
    let b' =
      (select_sticky first_hash first_choice first_choices heap "search" "user"
        (1 ∷ 0 ∷ [])
        balancer).1 in
    select_sticky first_hash first_choice first_choices heap "search" "user" (0 ∷ 1 ∷ []) b'
    ≡ (found 1, b')
unfolding select_sticky balancer Selection.init
session_stays =
    select_sticky_again first_hash first_choice first_choices heap "search" "user" (1 ∷ 0 ∷ [])
      (0 ∷ 1 ∷ []) balancer 1 refl refl

abbrev requests : List (Bool × ℕ)
requests = (true, 30) ∷ (false, 20) ∷ (true, 10) ∷ []

avg_response_time-Mean_example :
    let i = Mean.after requests (server "a" "search") in
    (i.request_count ≡ 3)
    × (i.errors ≡ failed requests)
    × (0 < i.avg_response_time.1)
    × (i.avg_response_time.0 * 3 ≡ total (times requests) * i.avg_response_time.1)
avg_response_time-Mean_example =
    avg_response_time-Mean requests (server "a" "search") refl refl refl

abbrev health_config : HealthCheckConfig
health_config = record {
  enabled = true;
  interval_seconds = 10;
  timeout_seconds = 5;
  unhealthy_threshold = 3;
  healthy_threshold = 2;
  method = "GET";
  path = "/health";
  expected_status = 200;
}

abbrev checker : HealthChecker
checker = record { config = health_config; failure_counts = []; success_counts = [] }

not_yet_checked : IsJudged health_config "a" 0 ServiceHealth.healthy [] (checker, two)
not_yet_checked = record {
  same_config = refl;
  successes = refl;
  failures = refl;
  known = refl;
  judged = refl;
}

-- Three failures in a row, newest first.
abbrev outage : List (Bool × ℕ)
outage = (false, 40) ∷ (false, 30) ∷ (false, 20) ∷ (true, 10) ∷ []

after-IsJudged_example :
    IsJudged health_config "a" 0 ServiceHealth.healthy
      (results outage)
      (Thresholds.after "a" outage (checker, two))
after-IsJudged_example =
    after-IsJudged health_config "a" 0 ServiceHealth.healthy outage (checker, two) not_yet_checked

outage_is_judged :
    Thresholds.verdict health_config ServiceHealth.healthy (results outage)
    ≡ ServiceHealth.unhealthy
outage_is_judged = refl
