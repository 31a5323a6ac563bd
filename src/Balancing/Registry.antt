-- ===== src/Balancing/Registry.antt =====
-- `ServiceRegistry` of core/infrastructure/distributed/load_balancing.py, every method. The instances
-- are objects that the registry, the index by name and the callers share: a reference is a number,
-- and the heap gives the object. Times are microseconds.
pub mod Index
use self_optimizing_competit.Base.{
  ℕ, zero, ◌+◌, ◌*◌, Bool, true, false, not, ◌&&◌, Option, none, some, String, List, [], ◌∷◌, ◌++◌,
  map, length, keep, count, ltb, ◌==◌, if◌then◌else◌,
}
use self_optimizing_competit.Base.Dict.{Dict, lookup, contains, insert, erase, key_eq}
use self_optimizing_competit.RateLimit.Metrics.{second}

pub data ServiceHealth : Type 0 where
  healthy degraded unhealthy unknown : ServiceHealth

-- `metadata` is left out: nothing reads it.
pub record ServiceInstance : Type 0 where
  pub id : String
  pub name : String
  pub host : String
  pub port : ℕ
  pub protocol : String
  pub weight : ℕ
  pub tags : List String
  pub registered_at : ℕ
  pub last_heartbeat : ℕ
  pub health_status : ServiceHealth
  pub connection_count : ℕ
  pub request_count : ℕ
  pub errors : ℕ
  -- numerator and denominator of the float
  pub avg_response_time : ℕ × ℕ

abbrev pub is_status : ServiceHealth → ServiceHealth → Bool
is_status ServiceHealth.healthy ServiceHealth.healthy = true
is_status ServiceHealth.degraded ServiceHealth.degraded = true
is_status ServiceHealth.unhealthy ServiceHealth.unhealthy = true
is_status ServiceHealth.unknown ServiceHealth.unknown = true
is_status _ _ = false

abbrev pub is_healthy : ServiceInstance → Bool
is_healthy i = is_status i.health_status ServiceHealth.healthy

-- `elapsed < 30`, also for a heartbeat in the future
abbrev pub is_alive : ℕ → ServiceInstance → Bool
is_alive now i = ltb now (i.last_heartbeat + 30 * second)

abbrev pub Heap : Type 0
Heap = ℕ → ServiceInstance

abbrev pub write : ℕ → ServiceInstance → Heap → Heap
write r i heap q = if q == r then i else heap q

pub record ServiceRegistry : Type 0 where
  pub heap : Heap
  pub instances : Dict (List ℕ)
  pub registry : Dict ℕ

unfoldable pub init : Heap → ServiceRegistry
init heap = record { heap = heap; instances = []; registry = [] }

abbrev pub or_empty : Option (List ℕ) → List ℕ
or_empty none = []
or_empty (some refs) = refs

-- `get_instances`
abbrev pub get_instances : String → ServiceRegistry → List ℕ
get_instances name s = or_empty (lookup name s.instances)

unfoldable pub register : ℕ → ServiceRegistry → ServiceRegistry
register r s =
    let i = s.heap r in
    record s {
      registry = insert i.id r s.registry;
      instances = insert i.name (get_instances i.name s ++ (r ∷ [])) s.instances;
    }

-- `[i for i in refs if i.id != instance_id]`
abbrev pub without : Heap → String → List ℕ → List ℕ
without heap id = keep (λ r. not (key_eq (heap r).id id))

abbrev pub unlist : Heap → String → String → Dict (List ℕ) → Dict (List ℕ)
unlist heap name id instances = elim (lookup name instances) [
  | none ↦ instances
  | some refs ↦ insert name (without heap id refs) instances
]

unfoldable pub deregister : String → ServiceRegistry → Bool × ServiceRegistry
deregister id s = elim (lookup id s.registry) [
  | none ↦ (false, s)
  | some r ↦ (
    true,
    record s {
      registry = erase id s.registry;
      instances = unlist s.heap (s.heap r).name id s.instances;
    },
  )
]

unfoldable pub get_instance : String → ServiceRegistry → Option ℕ
get_instance id s = lookup id s.registry

-- The clock is read once for all instances.
unfoldable pub get_healthy_instances : ℕ → String → ServiceRegistry → List ℕ
get_healthy_instances now name s =
    keep (λ r. is_healthy (s.heap r) && is_alive now (s.heap r)) (get_instances name s)

unfoldable pub update_health : ℕ → String → ServiceHealth → ServiceRegistry → Bool × ServiceRegistry
update_health now id status s = elim (lookup id s.registry) [
  | none ↦ (false, s)
  | some r ↦ (
    true,
    record s {
      heap = write r (record (s.heap r) { health_status = status; last_heartbeat = now }) s.heap;
    },
  )
]

abbrev pub values : Dict ℕ → List ℕ
values [] = []
values ((k, r) ∷ d) = r ∷ values d

unfoldable pub list_all : ServiceRegistry → List ℕ
list_all s = values s.registry

pub record Stats : Type 0 where
  pub total_instances : ℕ
  pub healthy_instances : ℕ
  pub degraded_instances : ℕ
  pub unhealthy_instances : ℕ
  pub services : ℕ

abbrev pub is_in : String → List String → Bool
is_in x [] = false
is_in x (y ∷ ys) = let rest = is_in x ys in if key_eq x y then true else rest

-- `len(set(names))`
abbrev pub distinct : List String → ℕ
distinct [] = 0
distinct (x ∷ xs) = let rest = distinct xs in if is_in x xs then rest else rest + 1

unfoldable pub get_stats : ServiceRegistry → Stats
get_stats s =
    let all = list_all s in
    let having =
      λ (status : ServiceHealth). count (λ r. is_status (s.heap r).health_status status) all in
    record {
      total_instances = length all;
      healthy_instances = having ServiceHealth.healthy;
      degraded_instances = having ServiceHealth.degraded;
      unhealthy_instances = having ServiceHealth.unhealthy;
      services = distinct (map (λ r. (s.heap r).name) all);
    }
