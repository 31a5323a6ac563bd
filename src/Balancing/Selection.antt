-- ===== src/Balancing/Selection.antt =====
-- `LoadBalancer` of core/infrastructure/distributed/load_balancing.py, every method. `hash` and the
-- draws of `random` are arguments: the index that they give in a list of instances.
pub mod Rotation
pub mod Available
pub mod Answers
pub mod Sticky
pub mod Mean
use Prim.Native.String.{◌++◌ as join}
use self_optimizing_competit.Base.{
  ℕ, zero, suc, ◌+◌, ◌-◌, ◌*◌, ◌%◌, Bool, true, false, Option, none, some, String, List, [], ◌∷◌,
  map, length, get_elem?, ltb, ◌==◌, if◌then◌else◌,
}
use self_optimizing_competit.Base.Dict.{Dict, lookup, insert, key_eq}
use self_optimizing_competit.Balancing.Registry
use self_optimizing_competit.Balancing.Registry.{
  Heap, write, ServiceInstance, ServiceRegistry, get_healthy_instances,
}

pub data LoadBalancingAlgorithm : Type 0 where
  round_robin least_connections weighted_round_robin ip_hash random sticky : LoadBalancingAlgorithm

pub record LoadBalancerStats : Type 0 where
  pub total_requests : ℕ
  pub total_errors : ℕ
  pub active_connections : ℕ
  pub max_connections : ℕ
  pub service_count : ℕ
  pub healthy_services : ℕ
  pub degraded_services : ℕ
  pub unhealthy_services : ℕ
  pub last_request : Option ℕ

-- The registry is passed beside it. `avg_response_time` of the stats is never written.
pub record LoadBalancer : Type 0 where
  pub algorithm : LoadBalancingAlgorithm
  pub stats : LoadBalancerStats
  pub round_robin_index : Dict ℕ
  pub session_affinity : Dict String

unfoldable pub init : LoadBalancingAlgorithm → LoadBalancer
init algorithm = record {
  algorithm = algorithm;
  stats = record {
    total_requests = 0;
    total_errors = 0;
    active_connections = 0;
    max_connections = 0;
    service_count = 0;
    healthy_services = 0;
    degraded_services = 0;
    unhealthy_services = 0;
    last_request = none;
  };
  round_robin_index = [];
  session_affinity = [];
}

pub data Selected : Type 0 where
  found : ℕ → Selected
  nobody : Selected
  zero_division : Selected
  index_error : Selected

abbrev pub selected : Option ℕ → Selected
selected none = index_error
selected (some r) = found r

-- `instances[i]`
abbrev pub pick : List ℕ → ℕ → Selected
pick refs i = selected (get_elem? refs i)

abbrev pub index_of : Option ℕ → ℕ
index_of none = 0
index_of (some i) = i

unfoldable pub select_round_robin : String → List ℕ → LoadBalancer → Selected × LoadBalancer
select_round_robin name refs b =
    let index = index_of (lookup name b.round_robin_index) in
    (
      pick refs (index % length refs),
      record b { round_robin_index = insert name ((index + 1) % length refs) b.round_robin_index },
    )

-- `min(instances, key=...)`, the first of the least
abbrev pub least : Heap → ℕ → List ℕ → ℕ
least heap best [] = best
least heap best (r ∷ refs) =
    least heap (if ltb (heap r).connection_count (heap best).connection_count then r else best) refs

abbrev pub total : List ℕ → ℕ
total [] = 0
total (w ∷ ws) = w + total ws

-- The first instance with the identifier.
abbrev pub by_id : Heap → String → List ℕ → Option ℕ
by_id heap id [] = none
by_id heap id (r ∷ refs) = if key_eq (heap r).id id then some r else by_id heap id refs

-- `f"{service_name}:{client_id}"`
abbrev pub session_key : String → String → String
session_key name client = join name (join ":" client)

abbrev pub remembered : Heap → List ℕ → Option String → Option ℕ
remembered heap refs none = none
remembered heap refs (some id) = by_id heap id refs

abbrev pub id_at : Heap → Selected → String
id_at heap (found r) = (heap r).id
id_at heap _ = ""

module _ (hash_index : String → ℕ → ℕ) (choice : ℕ → ℕ) (choices : List ℕ → ℕ) where
  unfoldable pub select_weighted : Heap → List ℕ → Selected
  select_weighted heap refs =
      let weights = map (λ r. (heap r).weight) refs in
      if total weights == 0 then zero_division else pick refs (choices weights)

  -- A session that remembers nobody in the list is given a new instance.
  unfoldable pub select_sticky :
      Heap → String → String → List ℕ → LoadBalancer → Selected × LoadBalancer
  select_sticky heap name client refs b =
      let key = session_key name client in
      let fresh = pick refs (choice (length refs)) in
      elim (remembered heap refs (lookup key b.session_affinity)) [
        | some r ↦ (found r, b)
        | none ↦ (
          fresh,
          record b { session_affinity = insert key (id_at heap fresh) b.session_affinity },
        )
      ]

  -- A client identifier that is missing or empty counts as none.
  abbrev pub known_client : Option String → Option String
  known_client none = none
  known_client (some client) = if key_eq client "" then none else some client

  -- The algorithms, on instances that are not empty.
  abbrev pub choose :
      LoadBalancingAlgorithm
      → Option String
      → Heap
      → String
      → ℕ
      → List ℕ
      → LoadBalancer
      → Selected × LoadBalancer
  choose LoadBalancingAlgorithm.round_robin client heap name r refs b =
      select_round_robin name (r ∷ refs) b
  choose LoadBalancingAlgorithm.least_connections client heap name r refs b =
      (found (least heap r refs), b)
  choose LoadBalancingAlgorithm.weighted_round_robin client heap name r refs b =
      (select_weighted heap (r ∷ refs), b)
  choose LoadBalancingAlgorithm.ip_hash (some client) heap name r refs b =
      (pick (r ∷ refs) (hash_index client (length (r ∷ refs))), b)
  choose LoadBalancingAlgorithm.random client heap name r refs b =
      (pick (r ∷ refs) (choice (length (r ∷ refs))), b)
  choose LoadBalancingAlgorithm.sticky (some client) heap name r refs b =
      select_sticky heap name client (r ∷ refs) b
  choose _ _ heap name r refs b = (found r, b)

  abbrev pub select_among :
      Option String → Heap → String → List ℕ → LoadBalancer → Selected × LoadBalancer
  select_among client heap name [] b = (nobody, b)
  select_among client heap name (r ∷ refs) b =
      choose b.algorithm (known_client client) heap name r refs b

  unfoldable pub select_instance :
      ℕ → String → Option String → ServiceRegistry → LoadBalancer → Selected × LoadBalancer
  select_instance now name client s b =
      select_among client s.heap name (get_healthy_instances now name s) b

-- The instance's part of `record_request`. The mean is `(old * (n - 1) + t) / n`.
unfoldable pub count_request : Bool → ℕ → ServiceInstance → ServiceInstance
count_request success response_time i =
    let n = i.request_count + 1 in
    let (sum, over) = i.avg_response_time in
    record i {
      request_count = n;
      errors = if success then i.errors else i.errors + 1;
      avg_response_time = (sum * (n - 1) + response_time * over, over * n);
    }

unfoldable pub record_request :
    ℕ → ℕ → Bool → ℕ → ServiceRegistry → LoadBalancer → ServiceRegistry × LoadBalancer
record_request now r success response_time s b = (
  record s { heap = write r (count_request success response_time (s.heap r)) s.heap },
  record b {
    stats = record b.stats {
      total_requests = b.stats.total_requests + 1;
      total_errors = if success then b.stats.total_errors else b.stats.total_errors + 1;
      last_request = some now;
    };
  },
)

-- `get_stats`, which stores what it reads of the registry
unfoldable pub get_stats : ServiceRegistry → LoadBalancer → LoadBalancer
get_stats s b =
    let all = Registry.get_stats s in
    record b {
      stats = record b.stats {
        service_count = all.services;
        healthy_services = all.healthy_instances;
        degraded_services = all.degraded_instances;
        unhealthy_services = all.unhealthy_instances;
      };
    }
