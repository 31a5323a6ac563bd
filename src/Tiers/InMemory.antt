-- ===== src/Tiers/InMemory.antt =====
-- `InMemoryCache` of core/infrastructure/caching/cache.py as one of the two caches: its state is the
-- cache with the time of its clock.
use mathlib.Core.Path.{subst}
use text.Mathlib.TextEquality.{eq_iff}
use self_optimizing_competit.Base.{
  ℕ, ◌+◌, ◌≤◌, ◌≡◌, ◌⊎◌, refl, sym, Bool, true, false, Option, none, some, String, List, arith,
  if◌then◌else◌, Bool-cases, Option-cases, inl, inr,
}
use self_optimizing_competit.Base.Dict.{
  Dict, lookup, insert, erase, contains, key_eq, IsDict, lookup-insert, lookup-erase, insert-IsDict,
  erase-IsDict,
}
use self_optimizing_competit.Cache.{
  CacheEntry, InMemoryCache, is_over, is_expired, get, set, delete, new_entry,
}
use self_optimizing_competit.Cache.Lazy.{is_over_later}
use self_optimizing_competit.Cache.Lazy.Runs.{erase-absent}
use self_optimizing_competit.Tiers.Interface.{Tier, IsLapsed}

new_lem : (now : ℕ) (ttl : Option ℕ) → is_over now now ttl ≡ false
new_lem now none = refl
new_lem now (some n) = ground arith

module _ {V : Type 0} where
  abbrev pub seen : ℕ → Option (CacheEntry V) → Option V
  seen now none = none
  seen now (some e) = if is_expired now e then none else some e.value

  abbrev pub shows : ℕ × InMemoryCache V → String → Option V
  shows (now, c) k = seen now (lookup k c.entries)

  abbrev pub IsValid : ℕ × InMemoryCache V → Type 0
  IsValid (now, c) = IsDict c.entries

  abbrev pub get_at : String → ℕ × InMemoryCache V → Option V × (ℕ × InMemoryCache V)
  get_at k (now, c) = let (v, c') = get now k c in (v, (now, c'))

  abbrev pub set_at :
      (V → ℕ) → String → V → Option ℕ → List String → ℕ × InMemoryCache V → ℕ × InMemoryCache V
  set_at size k v ttl tags (now, c) = (now, set size now k v ttl tags c)

  abbrev pub delete_at : String → ℕ × InMemoryCache V → Bool × (ℕ × InMemoryCache V)
  delete_at k (now, c) = let (b, c') = delete k c in (b, (now, c'))

  found_at :
      (k j : String) (d : Dict (CacheEntry V)) (o : Option (CacheEntry V))
      → lookup k d ≡ o
      → key_eq k j ≡ true
      → lookup j d ≡ o
  found_at k j d o found same = subst (λ i. lookup i d ≡ o) ((eq_iff k j).0 same) found

  seen_erased :
      (now : ℕ) (k j : String) (e : CacheEntry V) (d : Dict (CacheEntry V))
      → lookup k d ≡ some e
      → is_expired now e ≡ true
      → IsDict d
      → seen now (lookup j (erase k d)) ≡ seen now (lookup j d)
  seen_erased now k j e d found over u = elim (Bool-cases (key_eq k j)) [
    | inl same ↦ rw (lookup-erase k j d u, same, found_at k j d (some e) found same, over) refl
    | inr other ↦ rw (lookup-erase k j d u, other) refl
  ]

  seen_touched :
      (now : ℕ) (k j : String) (e : CacheEntry V) (d : Dict (CacheEntry V))
      → lookup k d ≡ some e
      → let e' = record e { accessed_at = now; access_count = e.access_count + 1 } in
        seen now (lookup j (insert k e' d)) ≡ seen now (lookup j d)
  seen_touched now k j e d found = elim (Bool-cases (key_eq k j)) [
    | inl same ↦ rw (lookup-insert k j _ d, same, found_at k j d (some e) found same) refl
    | inr other ↦ rw (lookup-insert k j _ d, other) refl
  ]

  pub get_lem :
      (now : ℕ) (k : String) (c : InMemoryCache V)
      → IsDict c.entries
      → ((get now k c).0 ≡ seen now (lookup k c.entries))
        × ((j : String)
            → seen now (lookup j (get now k c).1.entries) ≡ seen now (lookup j c.entries))
        × IsDict (get now k c).1.entries
  unfolding get
  get_lem now k c u = elim (Option-cases (lookup k c.entries)) [
    | inl missing ↦ rw (missing, get) (refl, λ j. refl, u)
    | inr (e, found) ↦ elim (Bool-cases (is_expired now e)) [
      | inl over ↦
          rw (found, over, get)
            (refl, λ j. seen_erased now k j e c.entries found over u, erase-IsDict k c.entries u)
      | inr fresh ↦
          rw (found, fresh, get)
            (refl, λ j. seen_touched now k j e c.entries found, insert-IsDict k _ c.entries u)
    ]
  ]

  pub set_lem :
      (size : V → ℕ) (now : ℕ) (k j : String) (v : V) (ttl : Option ℕ) (tags : List String)
      (c : InMemoryCache V)
      → IsDict c.entries
      → (seen now (lookup j (set size now k v ttl tags c).entries)
          ≡ (if key_eq k j then some v else seen now (lookup j c.entries)))
        × IsDict (set size now k v ttl tags c).entries
  unfolding set
  set_lem size now k j v ttl tags c u =
      let e = new_entry now k v ttl tags c in
      elim (Bool-cases (key_eq k j)) [
        | inl same ↦
            rw (lookup-insert k j e c.entries, same, new_lem now e.ttl_seconds)
              (refl, insert-IsDict k e c.entries u)
        | inr other ↦
            rw (lookup-insert k j e c.entries, other) (refl, insert-IsDict k e c.entries u)
      ]

  delete_entries : (k : String) (c : InMemoryCache V) → (delete k c).1.entries ≡ erase k c.entries
  unfolding delete
  delete_entries k c = elim (Bool-cases (contains k c.entries)) [
    | inl known ↦ rw (known, delete) refl
    | inr absent ↦ rw (absent, delete) (sym (erase-absent k c.entries absent))
  ]

  pub delete_lem :
      (now : ℕ) (k j : String) (c : InMemoryCache V)
      → IsDict c.entries
      → (seen now (lookup j (delete k c).1.entries)
          ≡ (if key_eq k j then none else seen now (lookup j c.entries)))
        × IsDict (delete k c).1.entries
  delete_lem now k j c u = elim (Bool-cases (key_eq k j)) [
    | inl same ↦
        rw (delete_entries k c, lookup-erase k j c.entries u, same)
          (refl, erase-IsDict k c.entries u)
    | inr other ↦
        rw (delete_entries k c, lookup-erase k j c.entries u, other)
          (refl, erase-IsDict k c.entries u)
  ]

  abbrev pub in_memory : (V → ℕ) → Tier V
  in_memory size = record {
    State = ℕ × InMemoryCache V;
    get = get_at;
    set = set_at size;
    delete = delete_at;
    shows = shows;
    IsValid = IsValid;
    get_shows = λ k (now, c) u. (get_lem now k c u).0;
    get_keeps = λ k j (now, c) u. (get_lem now k c u).1 j;
    get-IsValid = λ k (now, c) u. (get_lem now k c u).2;
    set_shows = λ k j v ttl tags (now, c) u. (set_lem size now k j v ttl tags c u).0;
    set-IsValid = λ k v ttl tags (now, c) u. (set_lem size now k k v ttl tags c u).1;
    delete_shows = λ k j (now, c) u. (delete_lem now k j c u).0;
    delete-IsValid = λ k (now, c) u. (delete_lem now k k c u).1;
  }

  seen_later :
      (now later : ℕ) (o : Option (CacheEntry V))
      → now ≤ later
      → (seen later o ≡ none) ⊎ (seen later o ≡ seen now o)
  seen_later now later none h = inr refl
  seen_later now later (some e) h = elim (Bool-cases (is_expired now e)) [
    | inl over ↦ inl (rw (is_over_later now later e.created_at e.ttl_seconds h over) refl)
    | inr fresh ↦ elim (Bool-cases (is_expired later e)) [
      | inl over ↦ inl (rw over refl)
      | inr kept ↦ inr (rw (kept, fresh) refl)
    ]
  ]

  -- The entries that expire are lost.
  pub in_memory-IsLapsed :
      (size : V → ℕ) (now later : ℕ) (c : InMemoryCache V)
      → now ≤ later
      → IsDict c.entries
      → IsLapsed (in_memory size) (now, c) (later, c)
  in_memory-IsLapsed size now later c h u = record {
    valid = u;
    less = λ k. seen_later now later (lookup k c.entries) h;
  }
