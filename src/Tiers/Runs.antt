-- ===== src/Tiers/Runs.antt =====
-- Writes, deletions and the write-back task keep the caches coherent.
use mathlib.Core.Path.{subst}
use text.Mathlib.TextEquality.{eq_iff}
use self_optimizing_competit.Base.{
  ℕ, ◌+◌, ◌<◌, ◌≡◌, ◌≢◌, ◌⊎◌, refl, sym, ◌∙◌, true, false, Option, none, some, String, List, [],
  arith, leb, if◌then◌else◌, Bool-cases, inl, inr,
}
use self_optimizing_competit.Base.Dict.{
  lookup, insert, key_eq, lookup-insert, lookup-erase, insert-IsDict, erase-IsDict,
}
use self_optimizing_competit.Tiers.Interface.{Tier, IsLapsed}
use self_optimizing_competit.Tiers.{
  CacheCoherence, WriteBackEntry, Tiers, set, delete, write_entry, fail_entry, set_by, set_through,
  set_back, set_around, set_invalidating,
}
use self_optimizing_competit.Tiers.Coherence.{Memory, put, Agrees, IsCoherent}

module _ {V : Type 0} (first second : Tier V) where
  settled :
      (m : Tiers first second) (w : Memory V)
      → IsCoherent first second m w
      → m.coherence ≢ CacheCoherence.write_back
      → m.write_back_queue ≡ []
  settled m w h other = elim h.pending [
    | inl protocol ↦ absurd (other protocol)
    | inr empty ↦ empty
  ]

  -- The caches after a write of `x`, where the second cache has it and the first has it or nothing.
  settled_write :
      (k : String) (x : Option V) (m m' : Tiers first second) (w : Memory V)
      → m.write_back_queue ≡ []
      → m'.write_back_queue ≡ []
      → first.IsValid m'.l1
      → second.IsValid m'.l2
      → (a : Option V) → (a ≡ none) ⊎ (a ≡ x)
      → ((j : String) → first.shows m'.l1 j ≡ (if key_eq k j then a else first.shows m.l1 j))
      → ((j : String) → second.shows m'.l2 j ≡ (if key_eq k j then x else second.shows m.l2 j))
      → IsCoherent first second m w
      → IsCoherent first second m' (put k x w)
  settled_write k x m m' w before after v1 v2 a first_has one two h = record {
    first_valid = v1;
    second_valid = v2;
    unique = rw after tt;
    pending = inr after;
    agrees = λ j. elim (Bool-cases (key_eq k j)) [
      | inl same ↦ rw (after, one j, two j, same) (refl, first_has)
      | inr other ↦
          rw (after, one j, two j, other)
            (subst (λ q. Agrees j (lookup j q) (first.shows m.l1 j) (second.shows m.l2 j) (w j))
              before (h.agrees j))
    ];
  }

  back_write :
      (k : String) (v : V) (ttl : Option ℕ) (tags : List String) (m : Tiers first second)
      (w : Memory V)
      → m.coherence ≡ CacheCoherence.write_back
      → IsCoherent first second m w
      → IsCoherent first second (set_back first second k v ttl tags m) (put k (some v) w)
  back_write k v ttl tags m w protocol h =
      let e : WriteBackEntry V = record { key = k; value = v; attempts = 0; max_attempts = 3 } in
      record {
        first_valid = first.set-IsValid k v ttl tags m.l1 h.first_valid;
        second_valid = h.second_valid;
        unique = insert-IsDict k e m.write_back_queue h.unique;
        pending = inl protocol;
        agrees = λ j. elim (Bool-cases (key_eq k j)) [
          | inl same ↦
              rw
                (
                  lookup-insert k j e m.write_back_queue,
                  first.set_shows k j v ttl tags m.l1 h.first_valid,
                  same,
                )
                (refl, refl, (eq_iff k j).0 same)
          | inr other ↦
              rw
                (
                  lookup-insert k j e m.write_back_queue,
                  first.set_shows k j v ttl tags m.l1 h.first_valid,
                  other,
                )
                (h.agrees j)
        ];
      }

  -- A write, when no other value is pending.
  set_cases :
      (c : CacheCoherence) (k : String) (v : V) (ttl : Option ℕ) (tags : List String)
      (m : Tiers first second) (w : Memory V)
      → m.coherence ≡ c
      → IsCoherent first second m w
      → IsCoherent first second (set_by first second c k v ttl tags m) (put k (some v) w)
  set_cases CacheCoherence.write_back k v ttl tags m w c h = back_write k v ttl tags m w c h
  set_cases CacheCoherence.write_through k v ttl tags m w c h =
      let none_waits = settled m w h (ground (arith, c)) in
      settled_write k (some v) m (set_through first second k v ttl tags m) w none_waits none_waits
        (first.set-IsValid k v ttl tags m.l1 h.first_valid)
        (second.set-IsValid k v ttl tags m.l2 h.second_valid) (some v) (inr refl)
        (λ j. first.set_shows k j v ttl tags m.l1 h.first_valid)
        (λ j. second.set_shows k j v ttl tags m.l2 h.second_valid) h
  set_cases CacheCoherence.write_around k v ttl tags m w c h =
      let none_waits = settled m w h (ground (arith, c)) in
      settled_write k (some v) m (set_around first second k v ttl tags m) w none_waits none_waits
        (first.delete-IsValid k m.l1 h.first_valid)
        (second.set-IsValid k v ttl tags m.l2 h.second_valid) none (inl refl)
        (λ j. first.delete_shows k j m.l1 h.first_valid)
        (λ j. second.set_shows k j v ttl tags m.l2 h.second_valid) h
  set_cases CacheCoherence.invalidate k v ttl tags m w c h =
      let none_waits = settled m w h (ground (arith, c)) in
      settled_write k (some v) m (set_invalidating first second k v ttl tags m) w none_waits
        none_waits (first.delete-IsValid k m.l1 h.first_valid)
        (second.set-IsValid k v ttl tags m.l2 h.second_valid) none (inl refl)
        (λ j. first.delete_shows k j m.l1 h.first_valid)
        (λ j. second.set_shows k j v ttl tags m.l2 h.second_valid) h

  pub set-IsCoherent :
      (k : String) (v : V) (ttl : Option ℕ) (tags : List String) (m : Tiers first second)
      (w : Memory V)
      → IsCoherent first second m w
      → IsCoherent first second (set first second k v ttl tags m) (put k (some v) w)
  unfolding set
  set-IsCoherent k v ttl tags m w h = set_cases m.coherence k v ttl tags m w refl h

  pub delete-IsCoherent :
      (k : String) (m : Tiers first second) (w : Memory V)
      → IsCoherent first second m w
      → IsCoherent first second (delete first second k m).1 (put k none w)
  unfolding delete
  delete-IsCoherent k m w h = record {
    first_valid = first.delete-IsValid k m.l1 h.first_valid;
    second_valid = second.delete-IsValid k m.l2 h.second_valid;
    unique = erase-IsDict k m.write_back_queue h.unique;
    pending = elim h.pending [ inl protocol ↦ inl protocol | inr empty ↦ inr (rw empty refl) ];
    agrees = λ j.
        let gone = lookup-erase k j m.write_back_queue h.unique in
        elim (Bool-cases (key_eq k j)) [
          | inl same ↦
              rw
                (
                  gone,
                  first.delete_shows k j m.l1 h.first_valid,
                  second.delete_shows k j m.l2 h.second_valid,
                  same,
                )
                (refl, inl refl)
          | inr other ↦
              rw
                (
                  gone,
                  first.delete_shows k j m.l1 h.first_valid,
                  second.delete_shows k j m.l2 h.second_valid,
                  other,
                )
                (h.agrees j)
        ];
  }

  -- What coherence says of a key whose value is pending
  waiting :
      (e : WriteBackEntry V) (m : Tiers first second) (w : Memory V)
      → lookup e.key m.write_back_queue ≡ some e
      → IsCoherent first second m w
      → (j : String) → key_eq e.key j ≡ true
      → Agrees j (some e) (first.shows m.l1 j) (second.shows m.l2 j) (w j)
  waiting e m w queued h j same =
      subst (λ q. Agrees j q (first.shows m.l1 j) (second.shows m.l2 j) (w j))
        (subst (λ i. lookup i m.write_back_queue ≡ some e) ((eq_iff e.key j).0 same) queued)
        (h.agrees j)

  -- A pending entry is written to the second cache.
  pub write_entry-IsCoherent :
      (e : WriteBackEntry V) (m : Tiers first second) (w : Memory V)
      → lookup e.key m.write_back_queue ≡ some e
      → IsCoherent first second m w
      → IsCoherent first second (write_entry first second e m) w
  unfolding write_entry
  write_entry-IsCoherent e m w queued h = record {
    first_valid = h.first_valid;
    second_valid = second.set-IsValid e.key e.value none [] m.l2 h.second_valid;
    unique = erase-IsDict e.key m.write_back_queue h.unique;
    pending = elim h.pending [ inl protocol ↦ inl protocol | inr empty ↦ inr (rw empty refl) ];
    agrees = λ j.
        let gone = lookup-erase e.key j m.write_back_queue h.unique in
        let now = second.set_shows e.key j e.value none [] m.l2 h.second_valid in
        elim (Bool-cases (key_eq e.key j)) [
          | inl same ↦
              let waits = waiting e m w queued h j same in
              rw (gone, now, same) (sym waits.1, inr waits.0)
          | inr other ↦ rw (gone, now, other) (h.agrees j)
        ];
  }

  abbrev tried : WriteBackEntry V → WriteBackEntry V
  tried e = record e { attempts = e.attempts + 1 }

  abbrev queued_again : WriteBackEntry V → Tiers first second → Tiers first second
  queued_again e m = record m { write_back_queue = insert e.key (tried e) m.write_back_queue }

  again-IsCoherent :
      (e : WriteBackEntry V) (m : Tiers first second) (w : Memory V)
      → lookup e.key m.write_back_queue ≡ some e
      → IsCoherent first second m w
      → IsCoherent first second (queued_again e m) w
  again-IsCoherent e m w queued h = record {
    first_valid = h.first_valid;
    second_valid = h.second_valid;
    unique = insert-IsDict e.key (tried e) m.write_back_queue h.unique;
    pending = elim h.pending [
      | inl protocol ↦ inl protocol
      | inr empty ↦ absurd (ground (arith, subst (λ q. lookup e.key q ≡ some e) empty queued))
    ];
    agrees = λ j.
        let known = lookup-insert e.key j (tried e) m.write_back_queue in
        elim (Bool-cases (key_eq e.key j)) [
          | inl same ↦ rw (known, same) (waiting e m w queued h j same)
          | inr other ↦ rw (known, other) (h.agrees j)
        ];
  }

  -- A failed write waits for its next attempt.
  pub fail_entry-IsCoherent :
      (e : WriteBackEntry V) (m : Tiers first second) (w : Memory V)
      → lookup e.key m.write_back_queue ≡ some e
      → e.attempts + 1 < e.max_attempts
      → IsCoherent first second m w
      → IsCoherent first second (fail_entry first second e m) w
  unfolding fail_entry
  fail_entry-IsCoherent e m w queued more h =
      let goes_on : leb e.max_attempts (e.attempts + 1) ≡ false = ground arith in
      rw goes_on (again-IsCoherent e m w queued h)

  lapsed-Agrees :
      (j : String) (q : Option (WriteBackEntry V)) (x x' y w : Option V)
      → (q ≢ none → x' ≡ x)
      → (x' ≡ none) ⊎ (x' ≡ x)
      → Agrees j q x y w
      → Agrees j q x' y w
  lapsed-Agrees j none x x' y w kept (inl gone) (same, first_has) = (same, inl gone)
  lapsed-Agrees j none x x' y w kept (inr there) (same, first_has) = (same, rw there first_has)
  lapsed-Agrees j (some e) x x' y w kept less (shown, pending, at) =
      (kept (λ q. ground arith) ∙ shown, pending, at)

  -- The first cache may lose any value that is not pending.
  pub lapsed-IsCoherent :
      (s : first.State) (m : Tiers first second) (w : Memory V)
      → IsLapsed first m.l1 s
      → ((j : String) → lookup j m.write_back_queue ≢ none → first.shows s j ≡ first.shows m.l1 j)
      → IsCoherent first second m w
      → IsCoherent first second (record m { l1 = s }) w
  lapsed-IsCoherent s m w lapsed kept h = record {
    first_valid = lapsed.valid;
    second_valid = h.second_valid;
    unique = h.unique;
    pending = h.pending;
    agrees = λ j.
        lapsed-Agrees j (lookup j m.write_back_queue) (first.shows m.l1 j) (first.shows s j)
          (second.shows m.l2 j) (w j) (kept j) (lapsed.less j) (h.agrees j);
  }
