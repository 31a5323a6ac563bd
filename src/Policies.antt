-- ===== src/Policies.antt =====
-- `AgentPolicy` of core/domain/entities/agent_policy.py. A policy is not changed: each method makes
-- another, which the constructor checks, here with `none` for its exception. Fields that every method
-- only hands on are left out, and a method reads the clock once. Rates are in thousandths.
pub mod Learning
mod Examples
use self_optimizing_competit.Base.{
  ℕ, ◌+◌, ◌*◌, ◌/◌, Bool, true, false, not, ◌&&◌, ◌||◌, Option, none, some, String, List, [], ◌∷◌,
  ◌++◌, keep, leb, ltb, ◌==◌, if◌then◌else◌,
}
use self_optimizing_competit.Base.Dict.{Dict, insert, key_eq}

pub data PolicyType : Type 0 where
  tool_selection task_ordering model_selection search_strategy extraction_pattern validation_rule
        retry_strategy custom :
      PolicyType

pub data PolicyStatus : Type 0 where
  draft active deprecated disabled : PolicyStatus

pub data PolicySource : Type 0 where
  manual learned imported default : PolicySource

pub record ToolPreference : Type 0 where
  pub tool_name : String
  pub weight : ℕ
  pub success_rate : ℕ
  pub avg_execution_time_ms : ℕ
  pub usage_count : ℕ

pub record StrategyPattern : Type 0 where
  pub name : String
  pub description : String
  pub steps : List String
  pub success_rate : ℕ
  pub avg_quality_score : ℕ
  pub usage_count : ℕ
  pub last_used : Option ℕ

-- The checks of both constructors
unfoldable pub make_preference : ToolPreference → Option ToolPreference
make_preference t = if leb t.weight 1000 && leb t.success_rate 1000 then some t else none

unfoldable pub make_strategy : StrategyPattern → Option StrategyPattern
make_strategy s = if leb s.success_rate 1000 && leb s.avg_quality_score 1000 then some s else none

pub record AgentPolicy : Type 0 where
  pub id : String
  pub agent_id : String
  pub agent_type : String
  pub policy_type : PolicyType
  pub policy_source : PolicySource
  pub status : PolicyStatus
  pub tool_preferences : Dict ToolPreference
  pub successful_strategies : List StrategyPattern
  pub failed_approaches : List String
  pub effectiveness_score : ℕ
  pub usage_count : ℕ
  pub feedback_count : ℕ
  pub last_successful : Option ℕ
  pub last_failed : Option ℕ
  pub created_at : ℕ
  pub updated_at : ℕ

-- `__post_init__`
unfoldable pub make : AgentPolicy → Option AgentPolicy
make p =
    if key_eq p.agent_id "" || key_eq p.agent_type ""
    then none
    else if leb p.effectiveness_score 100
    then some p
    else none

abbrev pub is_active : AgentPolicy → Bool
is_active p = elim p.status [
  | draft ↦ false
  | active ↦ true
  | deprecated ↦ false
  | disabled ↦ false
]

unfoldable pub is_effective : AgentPolicy → Bool
is_effective p = leb 70 p.effectiveness_score

-- As a percentage
unfoldable pub success_rate : AgentPolicy → ℕ
success_rate p = if p.feedback_count == 0 then 50 else p.effectiveness_score

-- `max(strategies, key=...)`, the first of the best
abbrev pub best : StrategyPattern → List StrategyPattern → StrategyPattern
best s [] = s
best s (t ∷ ts) = if ltb s.success_rate t.success_rate then best t ts else best s ts

abbrev pub best_of : List StrategyPattern → Option StrategyPattern
best_of [] = none
best_of (s ∷ ss) = some (best s ss)

unfoldable pub top_strategy : AgentPolicy → Option StrategyPattern
top_strategy p = best_of p.successful_strategies

abbrev pub best_tool : String × ToolPreference → Dict ToolPreference → String × ToolPreference
best_tool t [] = t
best_tool t (u ∷ us) = if ltb (t.1).weight (u.1).weight then best_tool u us else best_tool t us

abbrev pub best_tool_of : Dict ToolPreference → Option (String × ToolPreference)
best_tool_of [] = none
best_tool_of (t ∷ ts) = some (best_tool t ts)

unfoldable pub top_tool : AgentPolicy → Option (String × ToolPreference)
top_tool p = best_tool_of p.tool_preferences

-- `int(0.9 * score + 0.1 * feedback_score)`, which the floats give for each score up to 100
abbrev pub learned_score : Bool → ℕ → ℕ
learned_score successful score = (9 * score + (if successful then 100 else 0)) / 10

unfoldable pub record_usage : ℕ → Bool → AgentPolicy → Option AgentPolicy
record_usage now successful p = make (record p {
  effectiveness_score = learned_score successful p.effectiveness_score;
  usage_count = p.usage_count + 1;
  feedback_count = p.feedback_count + 1;
  last_successful = if successful then some now else p.last_successful;
  last_failed = if successful then p.last_failed else some now;
  updated_at = now;
})

unfoldable pub add_tool_preference : ℕ → ToolPreference → AgentPolicy → Option AgentPolicy
add_tool_preference now t p =
    make (record p { tool_preferences = insert t.tool_name t p.tool_preferences; updated_at = now })

unfoldable pub add_strategy : ℕ → StrategyPattern → AgentPolicy → Option AgentPolicy
add_strategy now s p = make (record p {
  successful_strategies = keep (λ t. not (key_eq t.name s.name)) p.successful_strategies ++ s ∷ [];
  updated_at = now;
})

abbrev pub is_listed : String → List String → Bool
is_listed k [] = false
is_listed k (j ∷ js) = if key_eq j k then true else is_listed k js

unfoldable pub add_failed_approach : ℕ → String → AgentPolicy → Option AgentPolicy
add_failed_approach now approach p = make (record p {
  failed_approaches =
      if is_listed approach p.failed_approaches
      then p.failed_approaches
      else approach ∷ p.failed_approaches;
  updated_at = now;
})

unfoldable pub with_status : ℕ → PolicyStatus → AgentPolicy → Option AgentPolicy
with_status now status p = make (record p { status = status; updated_at = now })

-- With a new identifier
unfoldable pub create : String → ℕ → String → String → PolicyType → Option AgentPolicy
create id now agent_id agent_type policy_type = make (record {
  id = id;
  agent_id = agent_id;
  agent_type = agent_type;
  policy_type = policy_type;
  policy_source = PolicySource.learned;
  status = PolicyStatus.active;
  tool_preferences = [];
  successful_strategies = [];
  failed_approaches = [];
  effectiveness_score = 50;
  usage_count = 0;
  feedback_count = 0;
  last_successful = none;
  last_failed = none;
  created_at = now;
  updated_at = now;
})
