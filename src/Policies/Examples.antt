-- ===== src/Policies/Examples.antt =====
-- A new policy, and its feedback.
use self_optimizing_competit.Base.{
  ℕ, ◌+◌, ◌-◌, ◌≤◌, ◌≡◌, refl, max, min, true, false, some, none, List, [], ◌∷◌, Bool, length,
  arith,
}
use self_optimizing_competit.Policies.{
  AgentPolicy, PolicyType, PolicyStatus, PolicySource, create, make, record_usage,
}
use self_optimizing_competit.Policies.Learning.{all_of, record_all, record_all_bounds}

abbrev policy : AgentPolicy
policy = record {
  id = "p";
  agent_id = "a";
  agent_type = "research";
  policy_type = PolicyType.tool_selection;
  policy_source = PolicySource.learned;
  status = PolicyStatus.active;
  tool_preferences = [];
  successful_strategies = [];
  failed_approaches = [];
  effectiveness_score = 50;
  usage_count = 0;
  feedback_count = 0;
  last_successful = none;
  last_failed = none;
  created_at = 3;
  updated_at = 3;
}

created : create "p" 3 "a" "research" PolicyType.tool_selection ≡ some policy
unfolding create make
created = refl

-- At 91 a success changes nothing but the counts.
stalls :
    record_usage 4 true (record policy { effectiveness_score = 91 })
    ≡ some (record policy {
      effectiveness_score = 91;
      usage_count = 1;
      feedback_count = 1;
      last_successful = some 4;
      updated_at = 4;
    })
unfolding record_usage make
stalls = refl

abbrev times : List ℕ
times = 4 ∷ 6 ∷ []

abbrev feedback : List (ℕ × Bool)
feedback = (4, true) ∷ (5, false) ∷ (6, true) ∷ []

record_all_bounds_example :
    ((q : AgentPolicy) × (record_all feedback policy ≡ some q)
      × (q.usage_count ≡ policy.usage_count + length feedback)
      × (q.feedback_count ≡ policy.feedback_count + length feedback)
      × (q.status ≡ policy.status)
      × (q.effectiveness_score ≤ max policy.effectiveness_score 91))
    × ((up : AgentPolicy) × (record_all (all_of true times) policy ≡ some up)
        × (min 91 (policy.effectiveness_score + length times) ≤ up.effectiveness_score))
    × ((down : AgentPolicy) × (record_all (all_of false times) policy ≡ some down)
        × (down.effectiveness_score ≤ policy.effectiveness_score - length times))
record_all_bounds_example = record_all_bounds feedback times policy (refl, omega arith)
