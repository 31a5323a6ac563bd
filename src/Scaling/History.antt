-- ===== src/Scaling/History.antt =====
-- Every history of an orchestrator: policies, metrics, scaling by hand and passes of the loop.
pub mod Steps
pub mod Reach
use mathlib.Core.Path.{subst}
use text.Mathlib.TextEquality.{eq_iff}
use self_optimizing_competit.Base.{
  ℕ, zero, suc, ◌+◌, ◌-◌, ◌≤◌, ◌≡◌, max, min, refl, sym, ap, ◌∙◌, Bool, true, false, Option, none,
  some, String, List, [], ◌∷◌, ◌++◌, arith, length, drop, ltb, leb, ◌==◌, if◌then◌else◌, Bool-cases,
  Option-cases, inl, inr, length-append,
}
use self_optimizing_competit.Base.Dict.{
  Dict, lookup, contains, insert, erase, key_eq, lookup-insert, lookup-insert_self,
}
use self_optimizing_competit.Scaling.{
  ScalingPolicy, ScalingEvent, InstanceDeployment, ScalingOrchestrator, init, add_policy,
  remove_policy, or_none, push_metric, record_metric, policy_for, clamp, launch, repeat, first_of,
  resize, execute_scaling, scale_to, scale_service, Verdict, skip, divide_by_zero, ask, evaluate,
  outcome_of, apply_verdict, go_on, evaluate_all, policies_of, scaling_pass,
}

-- The number of policies of a service.
abbrev pub count_for : String → Dict ScalingPolicy → ℕ
count_for service [] = 0
count_for service ((id, p) ∷ ps) =
    let rest = count_for service ps in if key_eq p.service_name service then suc rest else rest

-- The intended count lies within the limits of the policy.
abbrev pub IsWithin : ScalingPolicy → Option ℕ → Type 0
IsWithin p none = ⊥
IsWithin p (some n) = (p.min_instances ≤ n) × (n ≤ p.max_instances)

pub record IsScaled (o : ScalingOrchestrator) : Type 0 where
  pub single : (service : String) → count_for service o.policies ≤ 1
  pub within :
      (service : String) (p : ScalingPolicy)
      → policy_for service o.policies ≡ some p
      → IsWithin p (lookup service o.current_instances)
  pub running :
      (service : String) (t : ℕ)
      → lookup service o.last_scaling_time ≡ some t
      → lookup service o.current_instances ≡ some (length (or_none (lookup service o.deployments)))
  pub bounded : (service : String) → length (or_none (lookup service o.metric_history)) ≤ 100
  pub counted : o.stats.scaling_events ≡ length o.scaling_events

length-repeat {ℓ} : {A : Type ℓ} (n : ℕ) (x : A) → length (repeat n x) ≡ n
length-repeat zero x = refl
length-repeat (suc n) x = ap suc (length-repeat n x)

length-first_of {ℓ} :
    {A : Type ℓ} (n : ℕ) (xs : List A) → length (first_of n xs) ≡ min n (length xs)
length-first_of zero xs = omega arith
length-first_of (suc n) [] = omega arith
length-first_of (suc n) (x ∷ xs) = omega (arith, length-first_of n xs)

pub length-resize :
    (service : String) (target : ℕ) (xs : List InstanceDeployment)
    → length (resize service target xs) ≡ target
length-resize service target xs = ground (
  arith,
  length-append xs (repeat (target - length xs) (launch service)),
  length-repeat (target - length xs) (launch service),
  length-first_of (length xs - (length xs - target)) xs,
)

pub length-push_metric : (x : ℕ) (xs : List ℕ) → length xs ≤ 100 → length (push_metric x xs) ≤ 100
length-push_metric x [] h = ground arith
length-push_metric x (y ∷ ys) h = ground (arith, length-append ys (x ∷ []))

-- One more policy, under an identifier that is new.
pub policy_for-insert :
    (service : String) (p : ScalingPolicy) (ps : Dict ScalingPolicy)
    → lookup p.id ps ≡ none
    → (policy_for service (insert p.id p ps) ≡ elim (policy_for service ps) [
      | none ↦ if key_eq p.service_name service then some p else none
      | some q ↦ some q
    ])
      × (count_for service (insert p.id p ps)
          ≡ count_for service ps + (if key_eq p.service_name service then 1 else 0))
policy_for-insert service p [] fresh = (refl, ground arith)
policy_for-insert service p ((id, q) ∷ ps) fresh = ground (arith, policy_for-insert service p ps)

pub count_for-erase :
    (id service : String) (ps : Dict ScalingPolicy)
    → count_for service (erase id ps) ≤ count_for service ps
count_for-erase id service [] = omega arith
count_for-erase id service ((j, q) ∷ ps) = ground (arith, count_for-erase id service ps)

pub count_for-none :
    (service : String) (ps : Dict ScalingPolicy)
    → count_for service ps ≤ 0
    → policy_for service ps ≡ none
count_for-none service [] h = refl
count_for-none service ((j, q) ∷ ps) h = ground (arith, count_for-none service ps)

-- The only policy of a service, after one is removed.
pub policy_for-erase :
    (id service : String) (p : ScalingPolicy) (ps : Dict ScalingPolicy)
    → count_for service ps ≤ 1
    → policy_for service (erase id ps) ≡ some p
    → policy_for service ps ≡ some p
policy_for-erase id service p [] h e = e
policy_for-erase id service p ((j, q) ∷ ps) h e =
    ground (arith, policy_for-erase id service p ps, count_for-none service ps)

pub clamp-IsWithin :
    (p : ScalingPolicy) (target : ℕ)
    → p.min_instances ≤ p.max_instances
    → IsWithin p (some (clamp p target))
clamp-IsWithin p target h = (omega arith, omega arith)

pub IsWithin-limits :
    (p : ScalingPolicy) (o : Option ℕ) → IsWithin p o → p.min_instances ≤ p.max_instances
IsWithin-limits p none h = absurd h
IsWithin-limits p (some n) h = omega arith
