-- ===== src/Scaling/History/Steps.antt =====
-- What each operation of an orchestrator keeps.
use mathlib.Core.Path.{subst}
use text.Mathlib.TextEquality.{eq_iff}
use self_optimizing_competit.Base.{
  ℕ, ◌≤◌, ◌≡◌, refl, sym, ap, Bool, true, false, Option, none, some, String, List, [], ◌∷◌, arith,
  length, Bool-cases, Option-cases, inl, inr, length-append,
}
use self_optimizing_competit.Base.Dict.{Dict, lookup, contains, insert, key_eq, lookup-insert}
use self_optimizing_competit.Scaling.{
  ScalingPolicy, ScalingEvent, ScalingOrchestrator, add_policy, remove_policy, or_none, push_metric,
  record_metric, policy_for, clamp, resize, execute_scaling, scale_to, scale_service, Verdict, skip,
  divide_by_zero, ask, evaluate, outcome_of, apply_verdict, go_on, evaluate_all,
}
use self_optimizing_competit.Scaling.History.{
  count_for, IsWithin, IsScaled, length-resize, length-push_metric, policy_for-insert,
  count_for-erase, policy_for-erase, clamp-IsWithin, IsWithin-limits,
}

count_for-absent :
    (service : String) (ps : Dict ScalingPolicy)
    → policy_for service ps ≡ none
    → count_for service ps ≡ 0
count_for-absent service [] e = refl
count_for-absent service ((j, q) ∷ ps) e = ground (arith, count_for-absent service ps)

-- A service without instances has no policy.
unused-absent :
    (service : String) (o : ScalingOrchestrator)
    → lookup service o.current_instances ≡ none
    → IsScaled o
    → policy_for service o.policies ≡ none
unused-absent service o unused h = elim (Option-cases (policy_for service o.policies)) [
  | inl absent ↦ absent
  | inr (p, known) ↦ absurd (subst (IsWithin p) unused (h.within service p known))
]

-- The policy that is added to a service without one is the service's.
added-IsWithin :
    (p q : ScalingPolicy) (s : String) (o : ScalingOrchestrator)
    → lookup p.id o.policies ≡ none
    → policy_for p.service_name o.policies ≡ none
    → p.min_instances ≤ p.max_instances
    → policy_for s (insert p.id p o.policies) ≡ some q
    → IsScaled o
    → IsWithin q (lookup s (insert p.service_name p.min_instances o.current_instances))
added-IsWithin p q s o fresh absent limits e h =
    let inserted = (policy_for-insert s p o.policies fresh).0 in
    elim (Bool-cases (key_eq p.service_name s)) [
      | inl same ↦
          let none_there : policy_for s o.policies ≡ none =
            subst (λ k. policy_for k o.policies ≡ none) ((eq_iff p.service_name s).0 same) absent in
          let at_q : p ≡ q = ground (arith, inserted, none_there, same, e) in
          rw (lookup-insert p.service_name s p.min_instances o.current_instances, same)
            (subst (λ k. IsWithin k (some p.min_instances)) at_q (omega arith, limits))
      | inr other ↦
          rw (lookup-insert p.service_name s p.min_instances o.current_instances, other)
            (h.within s q (ground (arith, inserted, other, e)))
    ]

added_running :
    (p : ScalingPolicy) (s : String) (t : ℕ) (o : ScalingOrchestrator)
    → lookup p.service_name o.current_instances ≡ none
    → lookup s o.last_scaling_time ≡ some t
    → IsScaled o
    → lookup s (insert p.service_name p.min_instances o.current_instances)
      ≡ some (length (or_none (lookup s o.deployments)))
added_running p s t o unused e h = elim (Bool-cases (key_eq p.service_name s)) [
  | inl same ↦
      let none_there : lookup s o.current_instances ≡ none =
        subst (λ k. lookup k o.current_instances ≡ none) ((eq_iff p.service_name s).0 same)
          unused in
      absurd (ground (arith, h.running s t e, none_there))
  | inr other ↦
      rw (lookup-insert p.service_name s p.min_instances o.current_instances, other)
        (h.running s t e)
]

pub add_policy-IsScaled :
    (p : ScalingPolicy) (o : ScalingOrchestrator)
    → lookup p.id o.policies ≡ none
    → lookup p.service_name o.current_instances ≡ none
    → p.min_instances ≤ p.max_instances
    → IsScaled o
    → IsScaled (add_policy p o)
unfolding add_policy
add_policy-IsScaled p o fresh unused limits h =
    let absent = unused-absent p.service_name o unused h in
    let no_other = count_for-absent p.service_name o.policies absent in
    record {
      single = λ s. ground (
        arith,
        eq_iff p.service_name s,
        policy_for-insert s p o.policies fresh,
        h.single s,
        no_other,
      );
      within = λ s q e. added-IsWithin p q s o fresh absent limits e h;
      running = λ s t e. added_running p s t o unused e h;
      bounded =
          λ s. ground (arith, lookup-insert p.service_name s [] o.metric_history, h.bounded s);
      counted = h.counted;
    }

pub remove_policy-IsScaled :
    (id : String) (o : ScalingOrchestrator) → IsScaled o → IsScaled (remove_policy id o).1
unfolding remove_policy
remove_policy-IsScaled id o h = elim (Bool-cases (contains id o.policies)) [
  | inl known ↦
      rw (known, remove_policy)
        (record {
          single = λ s. omega (arith, h.single s, count_for-erase id s o.policies);
          within = λ s p e. h.within s p (policy_for-erase id s p o.policies (h.single s) e);
          running = h.running;
          bounded = h.bounded;
          counted = h.counted;
        })
  | inr absent ↦ rw (absent, remove_policy) h
]

pub record_metric-IsScaled :
    (service : String) (x : ℕ) (o : ScalingOrchestrator)
    → IsScaled o
    → IsScaled (record_metric service x o)
unfolding record_metric
record_metric-IsScaled service x o h =
    let xs = or_none (lookup service o.metric_history) in
    record {
      single = h.single;
      within = h.within;
      running = h.running;
      bounded = λ s. ground (
        arith,
        lookup-insert service s (push_metric x xs) o.metric_history,
        length-push_metric x xs (h.bounded service),
        h.bounded s,
      );
      counted = h.counted;
    }

scaled-IsWithin :
    (service s : String) (count : ℕ) (p q : ScalingPolicy) (o : ScalingOrchestrator)
    → policy_for service o.policies ≡ some p
    → IsWithin p (some count)
    → policy_for s o.policies ≡ some q
    → IsScaled o
    → IsWithin q (lookup s (insert service count o.current_instances))
scaled-IsWithin service s count p q o known inside e h = elim (Bool-cases (key_eq service s)) [
  | inl same ↦
      let at_s : policy_for s o.policies ≡ some p =
        subst (λ k. policy_for k o.policies ≡ some p) ((eq_iff service s).0 same) known in
      let at_q : p ≡ q = ground (arith, at_s, e) in
      rw (lookup-insert service s count o.current_instances, same)
        (subst (λ k. IsWithin k (some count)) at_q inside)
  | inr other ↦ rw (lookup-insert service s count o.current_instances, other) (h.within s q e)
]

scaled_running :
    (now : ℕ) (service s : String) (count t : ℕ) (o : ScalingOrchestrator)
    → lookup s (insert service now o.last_scaling_time) ≡ some t
    → IsScaled o
    → lookup s (insert service count o.current_instances)
      ≡ some (length (or_none (lookup s (execute_scaling service count o).deployments)))
unfolding execute_scaling
scaled_running now service s count t o e h =
    let xs = or_none (lookup service o.deployments) in
    let there = lookup-insert service s (resize service count xs) o.deployments in
    elim (Bool-cases (key_eq service s)) [
      | inl same ↦
          rw (lookup-insert service s count o.current_instances, there, same)
            (ap (λ n. some n) (sym (length-resize service count xs)))
      | inr other ↦
          rw (lookup-insert service s count o.current_instances, there, other)
            (h.running s t
              (ground (arith, lookup-insert service s now o.last_scaling_time, other, e)))
    ]

pub scale_to-IsScaled :
    (now : ℕ) (service : String) (target : ℕ) (p : ScalingPolicy) (o : ScalingOrchestrator)
    → policy_for service o.policies ≡ some p
    → IsScaled o
    → IsScaled (scale_to now service (clamp p target) p o).1
unfolding execute_scaling
scale_to-IsScaled now service target p o known h =
    let count = clamp p target in
    let inside = clamp-IsWithin p target (IsWithin-limits p _ (h.within service p known)) in
    record {
      single = h.single;
      within = λ s q e. scaled-IsWithin service s count p q o known inside e h;
      running = λ s t e. scaled_running now service s count t o e h;
      bounded = h.bounded;
      counted = omega (
        arith,
        h.counted,
        length-append o.scaling_events ((scale_to now service count p o).0 ∷ []),
      );
    }

-- The loop, whose verdicts never matter for this.
outcome-IsScaled :
    (r : Option (ScalingEvent × ScalingOrchestrator)) (o : ScalingOrchestrator)
    → ((event : ScalingEvent) (o' : ScalingOrchestrator) → r ≡ some (event, o') → IsScaled o')
    → IsScaled o
    → IsScaled (outcome_of r o).1
outcome-IsScaled none o k h = h
outcome-IsScaled (some (event, o')) o k h = k event o' refl

pub scale_service-IsScaled :
    (now : ℕ) (service : String) (target : ℕ) (o o' : ScalingOrchestrator) (event : ScalingEvent)
    → scale_service now service target o ≡ some (event, o')
    → IsScaled o
    → IsScaled o'
unfolding scale_service
scale_service-IsScaled now service target o o' event e h =
    elim (Option-cases (policy_for service o.policies)) [
      | inl absent ↦ absurd (ground (arith, absent, e))
      | inr (p, known) ↦
          let at_o' : (scale_to now service (clamp p target) p o).1 ≡ o' =
            ground (arith, known, e) in
          subst IsScaled at_o' (scale_to-IsScaled now service target p o known h)
    ]

verdict-IsScaled :
    (now : ℕ) (p : ScalingPolicy) (v : Verdict) (o : ScalingOrchestrator)
    → IsScaled o
    → IsScaled (apply_verdict now p v o).1
verdict-IsScaled now p skip o h = h
verdict-IsScaled now p divide_by_zero o h = h
verdict-IsScaled now p (ask count) o h =
    outcome-IsScaled (scale_service now p.service_name count o) o
      (λ event o' e. scale_service-IsScaled now p.service_name count o o' event e h) h

go_on-IsScaled :
    (rest : ScalingOrchestrator → ScalingOrchestrator) (r : Bool × ScalingOrchestrator)
    → ((o : ScalingOrchestrator) → IsScaled o → IsScaled (rest o))
    → IsScaled r.1
    → IsScaled (go_on rest r)
go_on-IsScaled rest (true, o) k h = k o h
go_on-IsScaled rest (false, o) k h = h

pub evaluate_all-IsScaled :
    (now : ℕ) (ps : List ScalingPolicy) (o : ScalingOrchestrator)
    → IsScaled o
    → IsScaled (evaluate_all now ps o)
evaluate_all-IsScaled now [] o h = h
evaluate_all-IsScaled now (p ∷ ps) o h =
    go_on-IsScaled (λ o'. evaluate_all now ps o') (apply_verdict now p (evaluate now p o) o)
      (λ o'. evaluate_all-IsScaled now ps o') (verdict-IsScaled now p (evaluate now p o) o h)
