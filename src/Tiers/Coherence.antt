-- ===== src/Tiers/Coherence.antt =====
-- Both caches against the values that were written last.
use mathlib.Core.Path.{subst}
use text.Mathlib.TextEquality.{eq_iff}
use self_optimizing_competit.Base.{
  ◌≡◌, ◌⊎◌, refl, sym, ap, ◌∙◌, Option, none, some, String, [], arith, if◌then◌else◌, Bool-cases,
  inl, inr,
}
use self_optimizing_competit.Base.Dict.{lookup, key_eq, IsDict}
use self_optimizing_competit.Tiers.Interface.{Tier}
use self_optimizing_competit.Tiers.{
  CacheCoherence, WriteBackEntry, Tiers, get, hit_first, miss_both, fall_back_to, look_up,
}

-- The last value written under each key.
abbrev pub Memory : Type 0 → Type 0
Memory V = String → Option V

abbrev pub put : {V : Type 0} → String → Option V → Memory V → Memory V
put k x w j = if key_eq k j then x else w j

module _ {V : Type 0} where
  -- With `queued` the entry that waits for a key, and the values of the caches and of the memory
  -- under it: a pending value is in the first cache, and nowhere else for sure. Any other is in the
  -- second cache, and the first has it or nothing.
  abbrev pub Agrees : String → Option (WriteBackEntry V) → Option V → Option V → Option V → Type 0
  Agrees k none x y w = (y ≡ w) × ((x ≡ none) ⊎ (x ≡ w))
  Agrees k (some e) x y w = (x ≡ w) × (w ≡ some e.value) × (e.key ≡ k)

  pub Agrees-first :
      (k : String) (q : Option (WriteBackEntry V)) (v : V) (y w : Option V)
      → Agrees k q (some v) y w
      → some v ≡ w
  Agrees-first k none v y w (same, inl absent) = absurd (ground arith)
  Agrees-first k none v y w (same, inr present) = present
  Agrees-first k (some e) v y w (shown, pending, at) = shown

  pub Agrees-second :
      (k : String) (q : Option (WriteBackEntry V)) (y w : Option V) → Agrees k q none y w → y ≡ w
  Agrees-second k none y w (same, first) = same
  Agrees-second k (some e) y w (shown, pending, at) = absurd (ground (arith, shown, pending))

  -- A value of the second cache may be put into the first.
  pub Agrees-promoted :
      (k : String) (q : Option (WriteBackEntry V)) (v : V) (w : Option V)
      → Agrees k q none (some v) w
      → Agrees k q (some v) (some v) w
  Agrees-promoted k none v w (same, first) = (same, inr same)
  Agrees-promoted k (some e) v w (shown, pending, at) = absurd (ground (arith, shown, pending))

module _ {V : Type 0} (first second : Tier V) where
  pub record IsCoherent (m : Tiers first second) (w : Memory V) : Type 0 where
    pub first_valid : first.IsValid m.l1
    pub second_valid : second.IsValid m.l2
    pub unique : IsDict m.write_back_queue
    pub pending : (m.coherence ≡ CacheCoherence.write_back) ⊎ (m.write_back_queue ≡ [])
    pub agrees :
        (k : String)
        → Agrees k (lookup k m.write_back_queue) (first.shows m.l1 k) (second.shows m.l2 k) (w k)

  -- The read, by what the caches answer.
  -- The caches may change as long as they show the same.
  pub same-IsCoherent :
      (m m' : Tiers first second) (w : Memory V)
      → m'.write_back_queue ≡ m.write_back_queue
      → m'.coherence ≡ m.coherence
      → first.IsValid m'.l1
      → second.IsValid m'.l2
      → ((j : String) → first.shows m'.l1 j ≡ first.shows m.l1 j)
      → ((j : String) → second.shows m'.l2 j ≡ second.shows m.l2 j)
      → IsCoherent m w
      → IsCoherent m' w
  same-IsCoherent m m' w queue protocol v1 v2 one two h = record {
    first_valid = v1;
    second_valid = v2;
    unique = rw queue h.unique;
    pending = rw (queue, protocol) h.pending;
    agrees = λ j. rw (queue, one j, two j) (h.agrees j);
  }

  second_cases :
      (k : String) (p : Option V × second.State) (m : Tiers first second) (w : Memory V)
      → second.get k m.l2 ≡ p
      → first.shows m.l1 k ≡ none
      → IsCoherent m w
      → let s = (first.get k m.l1).1 in
        ((fall_back_to first second k p s m).0 ≡ w k)
        × IsCoherent (fall_back_to first second k p s m).1 w
  second_cases k (some v, t) m w e missing h =
      let queued = lookup k m.write_back_queue in
      let s = (first.get k m.l1).1 in
      let valid_s = first.get-IsValid k m.l1 h.first_valid in
      let shown : second.shows m.l2 k ≡ some v =
        sym (second.get_shows k m.l2 h.second_valid) ∙ ap (λ r. r.0) e in
      let at_t : (second.get k m.l2).1 ≡ t = ap (λ r. r.1) e in
      let before : Agrees k queued none (some v) (w k) =
        subst (λ x. Agrees k queued x (some v) (w k)) missing
          (subst (λ y. Agrees k queued (first.shows m.l1 k) y (w k)) shown (h.agrees k)) in
      let promoted : Agrees k queued (some v) (second.shows m.l2 k) (w k) =
        subst (λ y. Agrees k queued (some v) y (w k)) (sym shown)
          (Agrees-promoted k queued v (w k) before) in
      (
        Agrees-second k queued (some v) (w k) before,
        record {
          first_valid = first.set-IsValid k v none [] s valid_s;
          second_valid = subst second.IsValid at_t (second.get-IsValid k m.l2 h.second_valid);
          unique = h.unique;
          pending = h.pending;
          agrees = λ j.
              let kept : second.shows t j ≡ second.shows m.l2 j =
                rw (← at_t) (second.get_keeps k j m.l2 h.second_valid) in
              elim (Bool-cases (key_eq k j)) [
                | inl same ↦
                    rw (first.set_shows k j v none [] s valid_s, same, kept)
                      (subst
                        (λ i.
                          Agrees i (lookup i m.write_back_queue) (some v) (second.shows m.l2 i)
                            (w i))
                        ((eq_iff k j).0 same) promoted)
                | inr other ↦
                    rw
                      (
                        first.set_shows k j v none [] s valid_s,
                        other,
                        kept,
                        first.get_keeps k j m.l1 h.first_valid,
                      )
                      (h.agrees j)
              ];
        },
      )
  second_cases k (none, t) m w e missing h =
      let queued = lookup k m.write_back_queue in
      let shown : second.shows m.l2 k ≡ none =
        sym (second.get_shows k m.l2 h.second_valid) ∙ ap (λ r. r.0) e in
      let at_t : (second.get k m.l2).1 ≡ t = ap (λ r. r.1) e in
      (
        Agrees-second k queued none (w k) (
            subst (λ x. Agrees k queued x none (w k)) missing
              (subst (λ y. Agrees k queued (first.shows m.l1 k) y (w k)) shown (h.agrees k))),
        same-IsCoherent m (miss_both first second (first.get k m.l1).1 t m) w refl refl
            (first.get-IsValid k m.l1 h.first_valid)
            (subst second.IsValid at_t (second.get-IsValid k m.l2 h.second_valid))
            (λ j. first.get_keeps k j m.l1 h.first_valid)
            (λ j. rw (← at_t) (second.get_keeps k j m.l2 h.second_valid)) h,
      )

  first_cases :
      (k : String) (p : Option V × first.State) (m : Tiers first second) (w : Memory V)
      → first.get k m.l1 ≡ p
      → IsCoherent m w
      → ((look_up first second k p m).0 ≡ w k) × IsCoherent (look_up first second k p m).1 w
  first_cases k (some v, s) m w e h =
      let shown : first.shows m.l1 k ≡ some v =
        sym (first.get_shows k m.l1 h.first_valid) ∙ ap (λ r. r.0) e in
      let at_s : (first.get k m.l1).1 ≡ s = ap (λ r. r.1) e in
      (
        Agrees-first k (lookup k m.write_back_queue) v (second.shows m.l2 k) (w k) (
            subst (λ x. Agrees k (lookup k m.write_back_queue) x (second.shows m.l2 k) (w k)) shown
              (h.agrees k)),
        same-IsCoherent m (hit_first first second s m) w refl refl
            (subst first.IsValid at_s (first.get-IsValid k m.l1 h.first_valid)) h.second_valid
            (λ j. rw (← at_s) (first.get_keeps k j m.l1 h.first_valid)) (λ j. refl) h,
      )
  first_cases k (none, s) m w e h =
      let shown : first.shows m.l1 k ≡ none =
        sym (first.get_shows k m.l1 h.first_valid) ∙ ap (λ r. r.0) e in
      subst
        (λ z.
          ((fall_back_to first second k (second.get k m.l2) z m).0 ≡ w k)
          × IsCoherent (fall_back_to first second k (second.get k m.l2) z m).1 w)
        (ap (λ r. r.1) e) (second_cases k (second.get k m.l2) m w refl shown h)

  pub get-IsCoherent :
      (k : String) (m : Tiers first second) (w : Memory V)
      → IsCoherent m w
      → ((get first second k m).0 ≡ w k) × IsCoherent (get first second k m).1 w
  unfolding get
  get-IsCoherent k m w h = first_cases k (first.get k m.l1) m w refl h
