-- ===== src/Tiers/Versions.antt =====
-- `CacheCoherencyManager` of core/infrastructure/advanced_caching/multi_tier.py. The sync itself is
-- a wait, and cannot fail; between its two steps other tasks may run.
use self_optimizing_competit.Base.{ℕ, ◌+◌, Bool, Option, none, some, String, List, [], length, ltb}
use self_optimizing_competit.Base.Dict.{Dict, lookup, insert, erase}

pub record CacheCoherencyManager : Type 0 where
  pub version_vectors : Dict (Dict ℕ)
  pub pending_syncs : Dict (List String)
  pub syncs_completed : ℕ

pub record SyncStats : Type 0 where
  pub syncs_completed : ℕ
  pub pending_syncs : ℕ
  pub tracked_keys : ℕ

abbrev or_empty : Option (Dict ℕ) → Dict ℕ
or_empty none = []
or_empty (some vector) = vector

unfoldable pub get_version_vector : String → CacheCoherencyManager → Dict ℕ
get_version_vector key m = or_empty (lookup key m.version_vectors)

unfoldable pub record_write : String → String → ℕ → CacheCoherencyManager → CacheCoherencyManager
unfolding get_version_vector
record_write key node_id version m = record m {
  version_vectors =
      insert key (insert node_id version (get_version_vector key m)) m.version_vectors;
}

unfoldable pub detect_conflicts : String → CacheCoherencyManager → Bool
detect_conflicts key m = ltb 1 (length (get_version_vector key m))

unfoldable pub start_sync : String → List String → CacheCoherencyManager → CacheCoherencyManager
start_sync key nodes m = record m { pending_syncs = insert key nodes m.pending_syncs }

unfoldable pub finish_sync : String → CacheCoherencyManager → CacheCoherencyManager
finish_sync key m = record m {
  pending_syncs = erase key m.pending_syncs;
  syncs_completed = m.syncs_completed + 1;
}

unfoldable pub get_sync_stats : CacheCoherencyManager → SyncStats
get_sync_stats m = record {
  syncs_completed = m.syncs_completed;
  pending_syncs = length m.pending_syncs;
  tracked_keys = length m.version_vectors;
}
