-- ===== src/Tiers.antt =====
-- `MultiTierCache` and `CacheWarmer._warm_cache` of
-- core/infrastructure/advanced_caching/multi_tier.py. The two caches are parameters. The write-back
-- task is one entry at a time, so that other tasks may run between two entries; values are not None.
pub mod Interface
pub mod Coherence
pub mod Runs
pub mod Taken
pub mod Memory
pub mod InMemory
pub mod Versions
mod Examples
use self_optimizing_competit.Base.{
  ℕ, zero, suc, ◌+◌, Bool, true, false, ◌||◌, Option, none, some, String, List, [], ◌∷◌, length,
  ltb, leb, ◌==◌, if◌then◌else◌,
}
use self_optimizing_competit.Base.Dict.{Dict, lookup, insert, erase}
use self_optimizing_competit.Tiers.Interface.{Tier}

pub data CacheCoherence : Type 0 where
  write_through write_back write_around invalidate : CacheCoherence

-- The fields that the code changes; the others keep their defaults.
pub record CacheMetrics : Type 0 where
  pub l1_hits : ℕ
  pub l1_misses : ℕ
  pub l2_hits : ℕ
  pub l2_misses : ℕ
  pub write_backs_pending : ℕ
  pub sync_errors : ℕ

-- Hit rates, as numerator and denominator
abbrev pub rate : ℕ → ℕ → ℕ × ℕ
rate hits total = if ltb 0 total then (hits, total) else (0, 1)

unfoldable pub l1_hit_rate : CacheMetrics → ℕ × ℕ
l1_hit_rate m = rate m.l1_hits (m.l1_hits + m.l1_misses)

unfoldable pub l2_hit_rate : CacheMetrics → ℕ × ℕ
l2_hit_rate m = rate m.l2_hits (m.l2_hits + m.l2_misses)

unfoldable pub overall_hit_rate : CacheMetrics → ℕ × ℕ
overall_hit_rate m =
    let total_hits = m.l1_hits + m.l2_hits in
    rate total_hits (total_hits + m.l1_misses + m.l2_misses)

pub record WriteBackEntry (V : Type 0) : Type 0 where
  pub key : String
  pub value : V
  pub attempts : ℕ
  pub max_attempts : ℕ

-- The times of the writes are left out: nothing reads them.
pub record MultiTierCache (V S T : Type 0) : Type 0 where
  pub l1 : S
  pub l2 : T
  pub coherence : CacheCoherence
  pub metrics : CacheMetrics
  pub write_back_queue : Dict (WriteBackEntry V)

abbrev pub no_metrics : CacheMetrics
no_metrics = record {
  l1_hits = 0;
  l1_misses = 0;
  l2_hits = 0;
  l2_misses = 0;
  write_backs_pending = 0;
  sync_errors = 0;
}

unfoldable pub init : {V S T : Type 0} → S → T → CacheCoherence → MultiTierCache V S T
init l1 l2 coherence = record {
  l1 = l1;
  l2 = l2;
  coherence = coherence;
  metrics = no_metrics;
  write_back_queue = [];
}

module _ {V : Type 0} (first second : Tier V) where
  abbrev pub Tiers : Type 0
  Tiers = MultiTierCache V first.State second.State

  abbrev pub hit_first : first.State → Tiers → Tiers
  hit_first s m = record m {
    l1 = s;
    metrics = record m.metrics { l1_hits = m.metrics.l1_hits + 1 };
  }

  -- A value of the second cache is put into the first, without its tags and time to live.
  abbrev pub hit_second : String → V → first.State → second.State → Tiers → Tiers
  hit_second key v s t m = record m {
    l1 = first.set key v none [] s;
    l2 = t;
    metrics = record m.metrics {
      l1_misses = m.metrics.l1_misses + 1;
      l2_hits = m.metrics.l2_hits + 1;
    };
  }

  abbrev pub miss_both : first.State → second.State → Tiers → Tiers
  miss_both s t m = record m {
    l1 = s;
    l2 = t;
    metrics = record m.metrics {
      l1_misses = m.metrics.l1_misses + 1;
      l2_misses = m.metrics.l2_misses + 1;
    };
  }

  abbrev pub fall_back_to :
      String → Option V × second.State → first.State → Tiers → Option V × Tiers
  fall_back_to key (some v, t) s m = (some v, hit_second key v s t m)
  fall_back_to key (none, t) s m = (none, miss_both s t m)

  abbrev pub look_up : String → Option V × first.State → Tiers → Option V × Tiers
  look_up key (some v, s) m = (some v, hit_first s m)
  look_up key (none, s) m = fall_back_to key (second.get key m.l2) s m

  unfoldable pub get : String → Tiers → Option V × Tiers
  get key m = look_up key (first.get key m.l1) m

  abbrev pub set_through : String → V → Option ℕ → List String → Tiers → Tiers
  set_through key v ttl tags m = record m {
    l1 = first.set key v ttl tags m.l1;
    l2 = second.set key v ttl tags m.l2;
  }

  abbrev pub set_back : String → V → Option ℕ → List String → Tiers → Tiers
  set_back key v ttl tags m =
      let entry : WriteBackEntry V = record {
        key = key;
        value = v;
        attempts = 0;
        max_attempts = 3;
      } in
      let queue = insert key entry m.write_back_queue in
      record m {
        l1 = first.set key v ttl tags m.l1;
        write_back_queue = queue;
        metrics = record m.metrics { write_backs_pending = length queue };
      }

  abbrev pub set_around : String → V → Option ℕ → List String → Tiers → Tiers
  set_around key v ttl tags m = record m {
    l2 = second.set key v ttl tags m.l2;
    l1 = (first.delete key m.l1).1;
  }

  abbrev pub set_invalidating : String → V → Option ℕ → List String → Tiers → Tiers
  set_invalidating key v ttl tags m = record m {
    l1 = (first.delete key m.l1).1;
    l2 = second.set key v ttl tags m.l2;
  }

  abbrev pub set_by : CacheCoherence → String → V → Option ℕ → List String → Tiers → Tiers
  set_by CacheCoherence.write_through key v ttl tags m = set_through key v ttl tags m
  set_by CacheCoherence.write_back key v ttl tags m = set_back key v ttl tags m
  set_by CacheCoherence.write_around key v ttl tags m = set_around key v ttl tags m
  set_by CacheCoherence.invalidate key v ttl tags m = set_invalidating key v ttl tags m

  unfoldable pub set : String → V → Option ℕ → List String → Tiers → Tiers
  set key v ttl tags m = set_by m.coherence key v ttl tags m

  unfoldable pub delete : String → Tiers → Bool × Tiers
  delete key m =
      let (in_first, s) = first.delete key m.l1 in
      let (in_second, t) = second.delete key m.l2 in
      (
        in_first || in_second,
        record m { l1 = s; l2 = t; write_back_queue = erase key m.write_back_queue },
      )

  -- `_process_writebacks` with an entry of its list, when the write succeeds. The entry is removed by
  -- its key, whatever stands under it by then.
  unfoldable pub write_entry : WriteBackEntry V → Tiers → Tiers
  write_entry e m = record m {
    l2 = second.set e.key e.value none [] m.l2;
    write_back_queue = erase e.key m.write_back_queue;
  }

  abbrev pub give_up : String → Tiers → Tiers
  give_up key m = record m {
    metrics = record m.metrics { sync_errors = m.metrics.sync_errors + 1 };
    write_back_queue = erase key m.write_back_queue;
  }

  -- And when it raises, for an entry that is still in the queue.
  unfoldable pub fail_entry : WriteBackEntry V → Tiers → Tiers
  fail_entry e m =
      let attempts = e.attempts + 1 in
      if leb e.max_attempts attempts then give_up e.key m else record m {
        write_back_queue = insert e.key (record e { attempts = attempts }) m.write_back_queue;
      }

  unfoldable pub get_metrics : Tiers → CacheMetrics
  get_metrics m = record m.metrics { write_backs_pending = length m.write_back_queue }

  -- `_warm_cache` over a cache of two tiers, with the list that its function has fetched
  unfoldable pub warm_cache : List (String × V) → Option ℕ → List String → Tiers → ℕ × Tiers
  warm_cache [] ttl tags m = (0, m)
  warm_cache ((key, v) ∷ items) ttl tags m =
      let (n, m') = warm_cache items ttl tags (set key v ttl tags m) in (n + 1, m')
