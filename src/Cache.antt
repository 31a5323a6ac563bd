-- ===== src/Cache.antt =====
-- `InMemoryCache` of core/infrastructure/caching/cache.py, every method but `connect` and
-- `disconnect`, which only log. Times are microseconds; `len(str(value))` and the match of a
-- pattern are arguments. A set is a list, in the order of its iteration.
pub mod Lazy
pub mod Tags
mod Examples
use self_optimizing_competit.Base.{
  ℕ, zero, ◌+◌, ◌*◌, Bool, true, false, Option, none, some, String, List, [], ◌∷◌, length, keep,
  ltb, ◌==◌, if◌then◌else◌,
}
use self_optimizing_competit.Base.Dict.{Dict, lookup, contains, insert, erase, key_eq}
use self_optimizing_competit.RateLimit.Metrics.{second}

-- `compressed` is left out: it is never written.
pub record CacheEntry (V : Type 0) : Type 0 where
  pub key : String
  pub value : V
  pub created_at : ℕ
  pub accessed_at : ℕ
  pub access_count : ℕ
  pub ttl_seconds : Option ℕ
  pub tags : List String

pub record CacheStats : Type 0 where
  pub total_gets : ℕ
  pub total_sets : ℕ
  pub total_deletes : ℕ
  pub cache_hits : ℕ
  pub cache_misses : ℕ
  pub bytes_stored : ℕ
  pub max_bytes : ℕ
  pub evicted_keys : ℕ
  pub expired_keys : ℕ
  pub active_keys : ℕ

-- Of the configuration only `default_ttl` is read.
pub record InMemoryCache (V : Type 0) : Type 0 where
  pub default_ttl : ℕ
  pub stats : CacheStats
  pub entries : Dict (CacheEntry V)
  pub tag_index : Dict (List String)

-- `hit_rate`, as numerator and denominator
unfoldable pub hit_rate : CacheStats → ℕ × ℕ
hit_rate s =
    let total = s.cache_hits + s.cache_misses in
    if ltb 0 total then (s.cache_hits, total) else (0, 1)

-- `a or b` on numbers
abbrev pub or_default : Option ℕ → ℕ → ℕ
or_default none d = d
or_default (some n) d = if n == 0 then d else n

-- Whether so much time has passed since `created`, where 0 and `None` ask for no end.
abbrev pub is_over : ℕ → ℕ → Option ℕ → Bool
is_over now created none = false
is_over now created (some n) = if n == 0 then false else ltb (created + n * second) now

abbrev pub is_member : String → List String → Bool
is_member k [] = false
is_member k (j ∷ js) = let rest = is_member k js in if key_eq k j then true else rest

-- `keys.add(k)`
abbrev pub add_key : String → List String → List String
add_key k ks = if is_member k ks then ks else k ∷ ks

abbrev pub or_no_keys : Option (List String) → List String
or_no_keys none = []
or_no_keys (some ks) = ks

abbrev pub keys_of : String → Dict (List String) → List String
keys_of tag index = or_no_keys (lookup tag index)

abbrev pub index_tags : String → List String → Dict (List String) → Dict (List String)
index_tags key [] index = index
index_tags key (tag ∷ tags) index =
    index_tags key tags (insert tag (add_key key (keys_of tag index)) index)

module _ {V : Type 0} where
  abbrev pub is_expired : ℕ → CacheEntry V → Bool
  is_expired now e = is_over now e.created_at e.ttl_seconds

  unfoldable pub init : ℕ → InMemoryCache V
  init default_ttl = record {
    default_ttl = default_ttl;
    stats = record {
      total_gets = 0;
      total_sets = 0;
      total_deletes = 0;
      cache_hits = 0;
      cache_misses = 0;
      bytes_stored = 0;
      max_bytes = 0;
      evicted_keys = 0;
      expired_keys = 0;
      active_keys = 0;
    };
    entries = [];
    tag_index = [];
  }

  abbrev pub miss : InMemoryCache V → InMemoryCache V
  miss c = record c {
    stats = record c.stats {
      total_gets = c.stats.total_gets + 1;
      cache_misses = c.stats.cache_misses + 1;
    };
  }

  abbrev pub drop_expired : String → InMemoryCache V → InMemoryCache V
  drop_expired key c = record c {
    entries = erase key c.entries;
    stats = record c.stats {
      total_gets = c.stats.total_gets + 1;
      cache_misses = c.stats.cache_misses + 1;
      expired_keys = c.stats.expired_keys + 1;
    };
  }

  -- The entry is an object of the dict: what is written to it stays under its key.
  abbrev pub hit : ℕ → String → CacheEntry V → InMemoryCache V → InMemoryCache V
  hit now key e c = record c {
    entries =
        insert key (record e { accessed_at = now; access_count = e.access_count + 1 }) c.entries;
    stats = record c.stats {
      total_gets = c.stats.total_gets + 1;
      cache_hits = c.stats.cache_hits + 1;
    };
  }

  -- The clock is read once for the test and the access.
  unfoldable pub get : ℕ → String → InMemoryCache V → Option V × InMemoryCache V
  get now key c = elim (lookup key c.entries) [
    | none ↦ (none, miss c)
    | some e ↦
        if is_expired now e then (none, drop_expired key c) else (some e.value, hit now key e c)
  ]

  abbrev pub new_entry : ℕ → String → V → Option ℕ → List String → InMemoryCache V → CacheEntry V
  new_entry now key value ttl tags c = record {
    key = key;
    value = value;
    created_at = now;
    accessed_at = now;
    access_count = 0;
    ttl_seconds = some (or_default ttl c.default_ttl);
    tags = tags;
  }

  -- No tags and an empty set of tags are the same here.
  unfoldable pub set :
      (V → ℕ) → ℕ → String → V → Option ℕ → List String → InMemoryCache V → InMemoryCache V
  set size now key value ttl tags c =
      let entries = insert key (new_entry now key value ttl tags c) c.entries in
      record c {
        entries = entries;
        stats = record c.stats {
          total_sets = c.stats.total_sets + 1;
          bytes_stored = c.stats.bytes_stored + size value;
          active_keys = length entries;
        };
        tag_index = index_tags key tags c.tag_index;
      }

  unfoldable pub delete : String → InMemoryCache V → Bool × InMemoryCache V
  delete key c =
      let entries = erase key c.entries in
      if contains key c.entries
      then (
        true,
        record c {
          entries = entries;
          stats = record c.stats {
            total_deletes = c.stats.total_deletes + 1;
            active_keys = length entries;
          };
        },
      )
      else (false, c)

  unfoldable pub exists : ℕ → String → InMemoryCache V → Bool × InMemoryCache V
  exists now key c = elim (lookup key c.entries) [
    | none ↦ (false, c)
    | some e ↦
        if is_expired now e then (false, record c { entries = erase key c.entries }) else (true, c)
  ]

  unfoldable pub clear : InMemoryCache V → ℕ × InMemoryCache V
  clear c = (
    length c.entries,
    record c {
      entries = [];
      tag_index = [];
      stats = record c.stats {
        evicted_keys = c.stats.evicted_keys + length c.entries;
        active_keys = 0;
      };
    },
  )

  abbrev pub keys : Dict (CacheEntry V) → List String
  keys [] = []
  keys ((k, e) ∷ d) = k ∷ keys d

  unfoldable pub get_keys : (String → String → Bool) → String → InMemoryCache V → List String
  get_keys fnmatch pattern c =
      if key_eq pattern "*"
      then keys c.entries
      else keep (λ key. fnmatch key pattern) (keys c.entries)

  -- The loop, with the number of deleted entries.
  abbrev pub delete_all : List String → Dict (CacheEntry V) → ℕ × Dict (CacheEntry V)
  delete_all [] d = (0, d)
  delete_all (k ∷ ks) d =
      let (n, rest) = delete_all ks (erase k d) in if contains k d then (n + 1, rest) else (n, rest)

  abbrev pub delete_listed : String → List String → InMemoryCache V → ℕ × InMemoryCache V
  delete_listed tag listed c =
      let (deleted, entries) = delete_all listed c.entries in
      (
        deleted,
        record c {
          entries = entries;
          tag_index = erase tag c.tag_index;
          stats = record c.stats {
            evicted_keys = c.stats.evicted_keys + deleted;
            active_keys = length entries;
          };
        },
      )

  unfoldable pub delete_by_tag : String → InMemoryCache V → ℕ × InMemoryCache V
  delete_by_tag tag c = elim (lookup tag c.tag_index) [
    | none ↦ (0, c)
    | some listed ↦ delete_listed tag listed c
  ]

  abbrev pub bytes : (V → ℕ) → Dict (CacheEntry V) → ℕ
  bytes size [] = 0
  bytes size ((k, e) ∷ d) = size e.value + bytes size d

  unfoldable pub get_stats : (V → ℕ) → InMemoryCache V → InMemoryCache V
  get_stats size c = record c {
    stats = record c.stats { bytes_stored = bytes size c.entries; active_keys = length c.entries };
  }
