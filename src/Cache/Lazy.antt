-- ===== src/Cache/Lazy.antt =====
-- Entries that expire are removed when they are next asked for: against a cache that removes nothing
-- on its own, and shows an entry exactly until it expires.
pub mod Runs
use mathlib.Core.Path.{subst}
use text.Mathlib.TextEquality.{eq_iff}
use self_optimizing_competit.Base.{
  ℕ, zero, suc, ◌+◌, ◌*◌, ◌≤◌, ◌≡◌, refl, sym, ap, ◌∙◌, Bool, true, false, Option, none, some,
  String, List, [], ◌∷◌, arith, ltb, ◌==◌, if◌then◌else◌, Bool-cases, Option-cases, inl, inr,
}
use self_optimizing_competit.Base.Dict.{
  Dict, lookup, contains, insert, erase, key_eq, IsDict, lookup-insert, lookup-erase, insert-IsDict,
  erase-IsDict,
}
use self_optimizing_competit.Cache.{
  CacheEntry, InMemoryCache, or_default, is_over, is_expired, miss, drop_expired, hit, new_entry,
  init, get, set, delete, exists,
}

-- What a client knows of an entry: its value, when it was stored, and the seconds that it lives,
-- where 0 is without end.
pub record Kept (V : Type 0) : Type 0 where
  pub value : V
  pub created : ℕ
  pub life : ℕ

abbrev pub Memory : Type 0 → Type 0
Memory V = String → Option (Kept V)

pub data Operation (V : Type 0) : Type 0 where
  get_op : String → Operation V
  exists_op : String → Operation V
  set_op : String → V → Option ℕ → List String → Operation V
  delete_op : String → Operation V

pub data Answer (V : Type 0) : Type 0 where
  got : Option V → Answer V
  there : Bool → Answer V
  done : Answer V
  deleted : Bool → Answer V
  -- The specification leaves open what a deletion answers.
  deleted_or_not : Answer V

pub is_over_later :
    (now later created : ℕ) (ttl : Option ℕ)
    → now ≤ later
    → is_over now created ttl ≡ true
    → is_over later created ttl ≡ true
is_over_later now later created none h e = ground arith
is_over_later now later created (some n) h e = ground arith

abbrev pub is_past : ℕ → ℕ → ℕ → Bool
is_past now created zero = false
is_past now created (suc life) = ltb (created + suc life * 1000000) now

-- A time to live that is missing or 0 is the default.
abbrev pub life_of : Option ℕ → ℕ → ℕ
life_of none default_ttl = default_ttl
life_of (some zero) default_ttl = default_ttl
life_of (some (suc n)) default_ttl = suc n

pub is_over-is_past : (now created n : ℕ) → is_over now created (some n) ≡ is_past now created n
is_over-is_past now created zero = refl
is_over-is_past now created (suc n) = ground arith

pub or_default-life_of : (ttl : Option ℕ) (d : ℕ) → or_default ttl d ≡ life_of ttl d
or_default-life_of none d = refl
or_default-life_of (some zero) d = refl
or_default-life_of (some (suc n)) d = ground arith

is_past_later :
    (now later created life : ℕ)
    → now ≤ later
    → is_past now created life ≡ true
    → is_past later created life ≡ true
is_past_later now later created zero h e = absurd (ground (arith, e))
is_past_later now later created (suc life) h e = ground arith

module _ {V : Type 0} where
  abbrev pub is_kept : ℕ → Option (Kept V) → Bool
  is_kept now none = false
  is_kept now (some x) = if is_past now x.created x.life then false else true

  abbrev pub shown : ℕ → Option (Kept V) → Option V
  shown now none = none
  shown now (some x) = if is_past now x.created x.life then none else some x.value

  abbrev pub put : String → Option (Kept V) → Memory V → Memory V
  put k x m j = if key_eq k j then x else m j

  -- A deletion finds an entry that has not expired, and does not find one that was never written or
  -- was deleted; it may or may not find one that has expired.
  abbrev pub deleted_by : ℕ → Option (Kept V) → Answer V
  deleted_by now none = deleted false
  deleted_by now (some x) = if is_past now x.created x.life then deleted_or_not else deleted true

  -- The specification: entries stay until they are replaced or deleted.
  abbrev pub recall : ℕ → ℕ → Operation V → Memory V → Answer V × Memory V
  recall default_ttl now (get_op k) m = (got (shown now (m k)), m)
  recall default_ttl now (exists_op k) m = (there (is_kept now (m k)), m)
  recall default_ttl now (set_op k v ttl tags) m =
      (done, put k (some (record { value = v; created = now; life = life_of ttl default_ttl })) m)
  recall default_ttl now (delete_op k) m = (deleted_by now (m k), put k none m)

  abbrev pub perform : (V → ℕ) → ℕ → Operation V → InMemoryCache V → Answer V × InMemoryCache V
  perform size now (get_op k) c = let (v, c') = get now k c in (got v, c')
  perform size now (exists_op k) c = let (b, c') = exists now k c in (there b, c')
  perform size now (set_op k v ttl tags) c = (done, set size now k v ttl tags c)
  perform size now (delete_op k) c = let (b, c') = delete k c in (deleted b, c')

  abbrev pub perform_all : (V → ℕ) → List (ℕ × Operation V) → InMemoryCache V → List (Answer V)
  perform_all size [] c = []
  perform_all size ((now, o) ∷ os) c =
      let (a, c') = perform size now o c in a ∷ perform_all size os c'

  abbrev pub recall_all : ℕ → List (ℕ × Operation V) → Memory V → List (Answer V)
  recall_all d [] m = []
  recall_all d ((now, o) ∷ os) m = let (a, m') = recall d now o m in a ∷ recall_all d os m'

  -- The answers of the cache and of the specification are the same, but for one that it leaves open.
  abbrev pub IsSame : Answer V → Answer V → Type 0
  IsSame (deleted b) deleted_or_not = Unit
  IsSame x y = x ≡ y

  abbrev pub AllSame : List (Answer V) → List (Answer V) → Type 0
  AllSame [] [] = Unit
  AllSame (x ∷ xs) (y ∷ ys) = IsSame x y × AllSame xs ys
  AllSame _ _ = ⊥

  -- The clock is never set back.
  abbrev pub IsOrdered : ℕ → List (ℕ × Operation V) → Type 0
  IsOrdered start [] = Unit
  IsOrdered start ((now, o) ∷ os) = (start ≤ now) × IsOrdered now os

  -- An entry that was removed is one that has expired.
  abbrev pub Agrees : ℕ → Option (CacheEntry V) → Option (Kept V) → Type 0
  Agrees now none none = Unit
  Agrees now none (some x) = is_past now x.created x.life ≡ true
  Agrees now (some e) none = ⊥
  Agrees now (some e) (some x) =
      (e.value ≡ x.value) × (e.created_at ≡ x.created) × (e.ttl_seconds ≡ some x.life)

  pub record IsFaithful (d now : ℕ) (c : InMemoryCache V) (m : Memory V) : Type 0 where
    pub unique : IsDict c.entries
    pub default : c.default_ttl ≡ d
    pub agrees : (k : String) → Agrees now (lookup k c.entries) (m k)

  pub Agrees-later :
      (now later : ℕ) (o : Option (CacheEntry V)) (x : Option (Kept V))
      → now ≤ later
      → Agrees now o x
      → Agrees later o x
  Agrees-later now later none none h a = tt
  Agrees-later now later none (some x) h a = is_past_later now later x.created x.life h a
  Agrees-later now later (some e) none h a = a
  Agrees-later now later (some e) (some x) h a = a

  pub erase-Agrees :
      (now : ℕ) (k j : String) (d : Dict (CacheEntry V)) (x : Option (Kept V)) (m : Memory V)
      → IsDict d
      → Agrees now none x
      → Agrees now (lookup j d) (m j)
      → Agrees now (lookup j (erase k d)) (put k x m j)
  erase-Agrees now k j d x m u a h = elim (Bool-cases (key_eq k j)) [
    | inl same ↦ rw (lookup-erase k j d u, same) a
    | inr other ↦ rw (lookup-erase k j d u, other) h
  ]

  pub insert-Agrees :
      (now : ℕ) (k j : String) (e : CacheEntry V) (d : Dict (CacheEntry V)) (x : Option (Kept V))
      (m : Memory V)
      → Agrees now (some e) x
      → Agrees now (lookup j d) (m j)
      → Agrees now (lookup j (insert k e d)) (put k x m j)
  insert-Agrees now k j e d x m a h = elim (Bool-cases (key_eq k j)) [
    | inl same ↦ rw (lookup-insert k j e d, same) a
    | inr other ↦ rw (lookup-insert k j e d, other) h
  ]

  put_same : (k j : String) (m : Memory V) → put k (m k) m j ≡ m j
  put_same k j m = elim (Bool-cases (key_eq k j)) [
    | inl same ↦ rw same (ap m ((eq_iff k j).0 same))
    | inr other ↦ rw other refl
  ]

  pub erase_expired :
      (d now : ℕ) (k : String) (c : InMemoryCache V) (m : Memory V)
      → Agrees now none (m k)
      → IsFaithful d now c m
      → (j : String) → Agrees now (lookup j (erase k c.entries)) (m j)
  erase_expired d now k c m a h j =
      subst (Agrees now (lookup j (erase k c.entries))) (put_same k j m)
        (erase-Agrees now k j c.entries (m k) m h.unique a (h.agrees j))

  pub touched :
      (d now : ℕ) (k : String) (e : CacheEntry V) (c : InMemoryCache V) (m : Memory V)
      → Agrees now (some e) (m k)
      → IsFaithful d now c m
      → (j : String) → Agrees now (lookup j (insert k e c.entries)) (m j)
  touched d now k e c m a h j =
      subst (Agrees now (lookup j (insert k e c.entries))) (put_same k j m)
        (insert-Agrees now k j e c.entries (m k) m a (h.agrees j))

  pub shown_absent : (now : ℕ) (x : Option (Kept V)) → Agrees now none x → none ≡ shown now x
  shown_absent now none a = refl
  shown_absent now (some x) a = ground arith

  pub shown_present :
      (now : ℕ) (e : CacheEntry V) (x : Option (Kept V))
      → Agrees now (some e) x
      → (if is_expired now e then none else some e.value) ≡ shown now x
  shown_present now e none a = absurd a
  shown_present now e (some x) (v, c, t) = rw (v, c, t, is_over-is_past now x.created x.life) refl

  pub expired-Agrees :
      (now : ℕ) (e : CacheEntry V) (x : Option (Kept V))
      → is_expired now e ≡ true
      → Agrees now (some e) x
      → Agrees now none x
  expired-Agrees now e none over a = tt
  expired-Agrees now e (some x) over (v, c, t) =
      sym (is_over-is_past now x.created x.life)
      ∙ subst (λ o. is_over now x.created o ≡ true) t
          (subst (λ n. is_over now n e.ttl_seconds ≡ true) c over)

  -- The record of an access does not show.
  pub alike :
      (now : ℕ) (e : CacheEntry V) (x : Option (Kept V))
      → Agrees now (some e) x
      → Agrees now (some (record e { accessed_at = now; access_count = e.access_count + 1 })) x
  alike now e none a = a
  alike now e (some x) a = a
