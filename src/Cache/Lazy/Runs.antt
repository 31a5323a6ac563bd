-- ===== src/Cache/Lazy/Runs.antt =====
-- The cache answers as the specification does.
use mathlib.Core.Path.{subst}
use self_optimizing_competit.Base.{
  ℕ, ◌+◌, ◌≤◌, ◌≡◌, refl, sym, ap, ◌∙◌, Bool, true, false, Option, none, some, String, List, [],
  ◌∷◌, arith, if◌then◌else◌, Bool-cases, inl, inr,
}
use self_optimizing_competit.Base.Dict.{Dict, lookup, contains, erase, insert-IsDict, erase-IsDict}
use self_optimizing_competit.Cache.{
  CacheEntry, InMemoryCache, or_default, is_expired, new_entry, init, get, set, delete, exists,
}
use self_optimizing_competit.Cache.Lazy.{
  Kept, Memory, Operation, get_op, exists_op, set_op, delete_op, got, there, is_kept, shown, put,
  is_past, life_of, is_over-is_past, or_default-life_of, deleted, deleted_by, IsSame, AllSame,
  recall, perform, perform_all, recall_all, IsOrdered, Agrees, IsFaithful, Agrees-later,
  erase-Agrees, insert-Agrees, erase_expired, touched, shown_absent, shown_present, expired-Agrees,
  alike,
}

module _ {V : Type 0} where
  get_step :
      (d now : ℕ) (k : String) (c : InMemoryCache V) (m : Memory V) (o : Option (CacheEntry V))
      → lookup k c.entries ≡ o
      → IsFaithful d now c m
      → ((get now k c).0 ≡ shown now (m k)) × IsFaithful d now (get now k c).1 m
  unfolding get
  get_step d now k c m none e h =
      rw (e, get)
        (
          shown_absent now (m k) (subst (λ o. Agrees now o (m k)) e (h.agrees k)),
          record { unique = h.unique; default = h.default; agrees = h.agrees },
        )
  get_step d now k c m (some x) e h =
      let a = subst (λ o. Agrees now o (m k)) e (h.agrees k) in
      elim (Bool-cases (is_expired now x)) [
        | inl over ↦
            rw (e, over, get)
              (
                shown_absent now (m k) (expired-Agrees now x (m k) over a),
                record {
                  unique = erase-IsDict k c.entries h.unique;
                  default = h.default;
                  agrees = erase_expired d now k c m (expired-Agrees now x (m k) over a) h;
                },
              )
        | inr live ↦
            rw (e, live, get)
              (
                rw live at (shown_present now x (m k) a),
                record {
                  unique = insert-IsDict k _ c.entries h.unique;
                  default = h.default;
                  agrees =
                      touched d now k
                        (record x { accessed_at = now; access_count = x.access_count + 1 }) c m
                        (alike now x (m k) a) h;
                },
              )
      ]

  abbrev is_some : Option (CacheEntry V) → Bool
  is_some none = false
  is_some (some e) = true

  kept_absent : (now : ℕ) (x : Option (Kept V)) → Agrees now none x → false ≡ is_kept now x
  kept_absent now none a = refl
  kept_absent now (some x) a = ground arith

  kept_present :
      (now : ℕ) (e : CacheEntry V) (x : Option (Kept V))
      → Agrees now (some e) x
      → (if is_expired now e then false else true) ≡ is_kept now x
  kept_present now e none a = absurd a
  kept_present now e (some x) (v, c, t) = rw (c, t, is_over-is_past now x.created x.life) refl

  exists_step :
      (d now : ℕ) (k : String) (c : InMemoryCache V) (m : Memory V) (o : Option (CacheEntry V))
      → lookup k c.entries ≡ o
      → IsFaithful d now c m
      → ((exists now k c).0 ≡ is_kept now (m k)) × IsFaithful d now (exists now k c).1 m
  unfolding exists
  exists_step d now k c m none e h =
      rw (e, exists) (kept_absent now (m k) (subst (λ o. Agrees now o (m k)) e (h.agrees k)), h)
  exists_step d now k c m (some x) e h =
      let a = subst (λ o. Agrees now o (m k)) e (h.agrees k) in
      elim (Bool-cases (is_expired now x)) [
        | inl over ↦
            rw (e, over, exists)
              (
                kept_absent now (m k) (expired-Agrees now x (m k) over a),
                record {
                  unique = erase-IsDict k c.entries h.unique;
                  default = h.default;
                  agrees = erase_expired d now k c m (expired-Agrees now x (m k) over a) h;
                },
              )
        | inr live ↦ rw (e, live, exists) (rw live at (kept_present now x (m k) a), h)
      ]

  set_step :
      (size : V → ℕ) (d now : ℕ) (k : String) (v : V) (ttl : Option ℕ) (tags : List String)
      (c : InMemoryCache V) (m : Memory V)
      → IsFaithful d now c m
      → IsFaithful d now
          (set size now k v ttl tags c)
          (put k (some (record { value = v; created = now; life = life_of ttl d })) m)
  unfolding set
  set_step size d now k v ttl tags c m h = record {
    unique = insert-IsDict k _ c.entries h.unique;
    default = h.default;
    agrees = λ j.
        insert-Agrees now k j (new_entry now k v ttl tags c) c.entries _ m
          (
            refl,
            refl,
            ap (λ n. some (or_default ttl n)) h.default ∙ ap some (or_default-life_of ttl d),
          )
          (h.agrees j);
  }

  -- Nothing is deleted where nothing is.
  pub erase-absent : (k : String) (d : Dict (CacheEntry V)) → contains k d ≡ false → erase k d ≡ d
  erase-absent k [] h = refl
  erase-absent k ((j, e) ∷ d) h = ground (arith, erase-absent k d)

  delete_step :
      (d now : ℕ) (k : String) (c : InMemoryCache V) (m : Memory V)
      → IsFaithful d now c m
      → IsFaithful d now (delete k c).1 (put k none m)
  unfolding delete
  delete_step d now k c m h =
      let erased = λ (j : String). erase-Agrees now k j c.entries none m h.unique tt (h.agrees j) in
      elim (Bool-cases (contains k c.entries)) [
        | inl known ↦
            rw (known, delete)
              (record {
                unique = erase-IsDict k c.entries h.unique;
                default = h.default;
                agrees = erased;
              })
        | inr absent ↦
            rw (absent, delete)
              (record {
                unique = h.unique;
                default = h.default;
                agrees = λ j.
                    subst (λ es. Agrees now (lookup j es) (put k none m j))
                      (erase-absent k c.entries absent) (erased j);
              })
      ]

  contains-lookup : (k : String) (es : Dict (CacheEntry V)) → contains k es ≡ is_some (lookup k es)
  contains-lookup k [] = refl
  contains-lookup k ((j, e) ∷ es) = ground (arith, contains-lookup k es)

  deleted-IsSame :
      (now : ℕ) (o : Option (CacheEntry V)) (x : Option (Kept V))
      → Agrees now o x
      → IsSame (deleted (is_some o)) (deleted_by now x)
  deleted-IsSame now none none a = refl
  deleted-IsSame now (some e) none a = absurd a
  deleted-IsSame now none (some x) a = rw a tt
  deleted-IsSame now (some e) (some x) a = elim (Bool-cases (is_past now x.created x.life)) [
    | inl past ↦ rw past tt
    | inr live ↦ rw live refl
  ]

  delete-contains : (k : String) (c : InMemoryCache V) → (delete k c).0 ≡ contains k c.entries
  unfolding delete
  delete-contains k c = ground arith

  delete_answer :
      (d now : ℕ) (k : String) (c : InMemoryCache V) (m : Memory V)
      → IsFaithful d now c m
      → IsSame (deleted (delete k c).0) (deleted_by now (m k))
  delete_answer d now k c m h =
      subst (λ b. IsSame (deleted b) (deleted_by now (m k)))
        (sym (delete-contains k c ∙ contains-lookup k c.entries))
        (deleted-IsSame now (lookup k c.entries) (m k) (h.agrees k))

  perform_step :
      (size : V → ℕ) (d now : ℕ) (o : Operation V) (c : InMemoryCache V) (m : Memory V)
      → IsFaithful d now c m
      → IsSame (perform size now o c).0 (recall d now o m).0
        × IsFaithful d now (perform size now o c).1 (recall d now o m).1
  perform_step size d now (get_op k) c m h =
      let (answer, h') = get_step d now k c m (lookup k c.entries) refl h in (ap got answer, h')
  perform_step size d now (exists_op k) c m h =
      let (answer, h') = exists_step d now k c m (lookup k c.entries) refl h in
      (ap there answer, h')
  perform_step size d now (set_op k v ttl tags) c m h =
      (refl, set_step size d now k v ttl tags c m h)
  perform_step size d now (delete_op k) c m h =
      (delete_answer d now k c m h, delete_step d now k c m h)

  later-IsFaithful :
      (d now later : ℕ) (c : InMemoryCache V) (m : Memory V)
      → now ≤ later
      → IsFaithful d now c m
      → IsFaithful d later c m
  later-IsFaithful d now later c m after h = record {
    unique = h.unique;
    default = h.default;
    agrees = λ k. Agrees-later now later (lookup k c.entries) (m k) after (h.agrees k);
  }

  perform_all_from :
      (size : V → ℕ) (d now : ℕ) (os : List (ℕ × Operation V)) (c : InMemoryCache V) (m : Memory V)
      → IsOrdered now os
      → IsFaithful d now c m
      → AllSame (perform_all size os c) (recall_all d os m)
  perform_all_from size d now [] c m order h = tt
  perform_all_from size d now ((t, o) ∷ os) c m (after, order) h =
      let (answer, h') = perform_step size d t o c m (later-IsFaithful d now t c m after h) in
      let rest = perform_all_from size d t os (perform size t o c).1 (recall d t o m).1 order h' in
      (answer, rest)

  -- From an empty cache, on a clock that is never set back, any reads, tests and writes are answered
  -- as by a cache that removes nothing on its own and shows an entry until its time to live is over.
  -- A deletion answers true for an entry that is shown and false where nothing was written since the
  -- last deletion; for an entry whose time is over, where the answer depends on whether it has been
  -- purged, nothing is said of it. A time to live that is missing or 0 is the default, and a default
  -- of 0 is without end.
  pub perform_all-recall_all :
      (size : V → ℕ) (d start : ℕ) (os : List (ℕ × Operation V))
      → IsOrdered start os
      → AllSame (perform_all size os (init d)) (recall_all d os (λ k. none))
  unfolding init
  perform_all-recall_all size d start os order =
      perform_all_from size d start os (init d) (λ k. none) order
        (record { unique = tt; default = refl; agrees = λ k. tt })
