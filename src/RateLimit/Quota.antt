-- ===== src/RateLimit/Quota.antt =====
-- `ClientQuota` and `QuotaManager` of core/infrastructure/rate_limiting/limiter.py. Quotas are kept
-- by resource and then by client.
pub mod Usage
pub mod Isolation
use self_optimizing_competit.Base.{
  ℕ, ◌+◌, ◌-◌, ◌*◌, Bool, true, false, Option, none, some, String, [], leb, ltb, if◌then◌else◌,
}
use self_optimizing_competit.Base.Dict.{Dict, lookup, insert, erase}
use self_optimizing_competit.RateLimit.Metrics.{second}

pub data QuotaType : Type 0 where
  per_second per_minute per_hour per_day custom : QuotaType

pub record QuotaConfig : Type 0 where
  pub name : String
  pub quota_type : QuotaType
  pub max_usage : ℕ
  pub custom_period_seconds : ℕ

pub record QuotaMetrics : Type 0 where
  pub remaining : ℕ
  pub used : ℕ
  pub limit : ℕ
  pub reset_time : Option ℕ
  -- `used / max_usage * 100`, as numerator and denominator
  pub usage_percentage : ℕ × ℕ

pub record ClientQuota : Type 0 where
  pub config : QuotaConfig
  pub used : ℕ
  pub period_start : ℕ

unfoldable pub init : QuotaConfig → ℕ → ClientQuota
init config now = record { config = config; used = 0; period_start = now }

-- `_get_period_seconds`
abbrev pub period_of : QuotaType → ℕ → ℕ
period_of QuotaType.per_second _ = 1
period_of QuotaType.per_minute _ = 60
period_of QuotaType.per_hour _ = 3600
period_of QuotaType.per_day _ = 86400
period_of QuotaType.custom seconds = seconds

abbrev pub period_seconds : ClientQuota → ℕ
period_seconds q = period_of q.config.quota_type q.config.custom_period_seconds

-- `_check_period_reset`; `elapsed >= period_seconds`, without the subtraction
unfoldable pub check_period_reset : ℕ → ClientQuota → ClientQuota
check_period_reset now q =
    if leb (q.period_start + period_seconds q * second) now
    then record q { used = 0; period_start = now }
    else q

-- `consume`, after the reset
unfoldable pub take_amount : ℕ → ClientQuota → Bool × ClientQuota
take_amount amount q =
    if leb (q.used + amount) q.config.max_usage
    then (true, record q { used = q.used + amount })
    else (false, q)

unfoldable pub consume : ℕ → ℕ → ClientQuota → Bool × ClientQuota
unfolding check_period_reset take_amount
consume now amount q = take_amount amount (check_period_reset now q)

-- `max(0, max_usage - used)` is the truncated difference.
unfoldable pub get_metrics : ClientQuota → QuotaMetrics
get_metrics q = record {
  remaining = q.config.max_usage - q.used;
  used = q.used;
  limit = q.config.max_usage;
  reset_time = some (q.period_start + period_seconds q * second);
  usage_percentage =
      if ltb 0 q.config.max_usage then (q.used * 100, q.config.max_usage) else (0, 1);
}

abbrev pub QuotaManager : Type 0
QuotaManager = Dict (Dict ClientQuota)

-- The quota of a client for a resource, if there is one.
abbrev pub find : String → String → QuotaManager → Option ClientQuota
find resource client m = elim (lookup resource m) [
  | none ↦ none
  | some clients ↦ lookup client clients
]

abbrev pub clients_of : String → QuotaManager → Dict ClientQuota
clients_of resource m = elim (lookup resource m) [ none ↦ [] | some clients ↦ clients ]

unfoldable pub put_quota : String → String → ClientQuota → QuotaManager → QuotaManager
put_quota resource client q m = insert resource (insert client q (clients_of resource m)) m

unfoldable pub add_quota : String → String → QuotaConfig → ℕ → QuotaManager → QuotaManager
add_quota resource client config now m = put_quota resource client (init config now) m

-- A client without a quota is not limited.
unfoldable pub check_quota : ℕ → String → String → ℕ → QuotaManager → Bool × QuotaManager
check_quota now resource client amount m = elim (find resource client m) [
  | none ↦ (true, m)
  | some q ↦ let (ok, q') = consume now amount q in (ok, put_quota resource client q' m)
]

unfoldable pub get_quota_metrics : String → String → QuotaManager → QuotaMetrics
unfolding get_metrics
get_quota_metrics resource client m = elim (find resource client m) [
  | none ↦ record {
    remaining = 0;
    used = 0;
    limit = 0;
    reset_time = none;
    usage_percentage = (0, 1);
  }
  | some q ↦ get_metrics q
]

unfoldable pub remove_quota : String → String → QuotaManager → QuotaManager
remove_quota resource client m = elim (lookup resource m) [
  | none ↦ m
  | some clients ↦ insert resource (erase client clients) m
]
