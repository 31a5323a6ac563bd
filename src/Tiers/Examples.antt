-- ===== src/Tiers/Examples.antt =====
-- Two caches in memory. An entry expires in the first, and is found in the second.
use self_optimizing_competit.Base.{ℕ, ◌*◌, ◌≡◌, refl, none, some, []}
use self_optimizing_competit.RateLimit.Metrics.{second}
use self_optimizing_competit.Cache
use self_optimizing_competit.Tiers.Interface.{Tier}
use self_optimizing_competit.Tiers
use self_optimizing_competit.Tiers.{
  CacheCoherence, WriteBackEntry, Tiers, get, set, delete, write_entry, warm_cache,
}
use self_optimizing_competit.Tiers.Coherence.{Memory, put}
use self_optimizing_competit.Tiers.InMemory.{in_memory}

abbrev store : Tier ℕ
store = in_memory (λ n. n)

abbrev empty : store.State
unfolding Cache.init
empty = (second, Cache.init 3600)

abbrev m0 : Tiers store store
unfolding Tiers.init
m0 = Tiers.init empty empty CacheCoherence.write_back

abbrev m1 : Tiers store store
m1 = set store store "a" 5 (some 3) [] m0

abbrev waits : WriteBackEntry ℕ
waits = record { key = "a"; value = 5; attempts = 0; max_attempts = 3 }

abbrev m2 : Tiers store store
m2 = write_entry store store waits m1

-- After nine seconds
abbrev m3 : Tiers store store
m3 = record m2 { l1 = (9 * second, m2.l1.1) }

abbrev memory : Memory ℕ
memory = put "a" (some 5) (λ k. store.shows empty k)

-- A second value is written while the task holds its list: the second cache keeps the first one, and
-- nothing waits to replace it.
stale : Tiers store store
stale = write_entry store store waits (set store store "a" 6 none [] m1)

stale_write : store.shows stale.l2 "a" ≡ some 5
unfolding stale m0 empty Cache.init Cache.set Tiers.init set write_entry
stale_write = refl

nothing_waits : stale.write_back_queue ≡ []
unfolding stale m0 empty Cache.init Cache.set Tiers.init set write_entry
nothing_waits = refl

expired : (store.get "a" m3.l1).0 ≡ none
unfolding m0 empty Cache.init Cache.set Cache.get Tiers.init set write_entry
expired = refl
