-- ===== src/Tiers/Interface.antt =====
-- What MultiTierCache of core/infrastructure/advanced_caching/multi_tier.py asks of its two caches.
use self_optimizing_competit.Base.{
  ℕ, ◌≡◌, ◌⊎◌, Bool, Option, none, some, String, List, if◌then◌else◌,
}
use self_optimizing_competit.Base.Dict.{key_eq}

-- The operations of a cache, and what it shows under each key. A cache may lose entries.
pub record Tier (V : Type 0) : Type 1 where
  pub State : Type 0
  pub get : String → State → Option V × State
  pub set : String → V → Option ℕ → List String → State → State
  pub delete : String → State → Bool × State
  pub shows : State → String → Option V
  pub IsValid : State → Type 0
  pub get_shows : (k : String) (s : State) → IsValid s → (get k s).0 ≡ shows s k
  pub get_keeps : (k j : String) (s : State) → IsValid s → shows (get k s).1 j ≡ shows s j
  pub get-IsValid : (k : String) (s : State) → IsValid s → IsValid (get k s).1
  pub set_shows :
      (k j : String) (v : V) (ttl : Option ℕ) (tags : List String) (s : State)
      → IsValid s
      → shows (set k v ttl tags s) j ≡ (if key_eq k j then some v else shows s j)
  pub set-IsValid :
      (k : String) (v : V) (ttl : Option ℕ) (tags : List String) (s : State)
      → IsValid s
      → IsValid (set k v ttl tags s)
  pub delete_shows :
      (k j : String) (s : State)
      → IsValid s
      → shows (delete k s).1 j ≡ (if key_eq k j then none else shows s j)
  pub delete-IsValid : (k : String) (s : State) → IsValid s → IsValid (delete k s).1

module _ {V : Type 0} where
  -- A later state of the same cache, which has lost entries at most.
  pub record IsLapsed (t : Tier V) (s s' : t.State) : Type 0 where
    pub valid : t.IsValid s'
    pub less : (k : String) → (t.shows s' k ≡ none) ⊎ (t.shows s' k ≡ t.shows s k)
