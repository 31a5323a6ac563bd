-- ===== src/Cache/Tags/History.antt =====
-- Every history of a cache, and deletion by tag at its end.
use mathlib.Core.Path.{subst}
use text.Mathlib.TextEquality.{eq_iff}
use self_optimizing_competit.Base.{
  ℕ, ◌+◌, ◌≡◌, refl, ap, ◌∙◌, true, false, Option, none, String, List, arith, length, if◌then◌else◌,
  Bool-cases, Option-cases, inl, inr,
}
use self_optimizing_competit.Base.Dict.{lookup, contains, erase}
use self_optimizing_competit.Cache.{
  InMemoryCache, is_member, keys_of, index_tags, or_no_keys, is_expired, init, get, set, delete,
  exists, clear, delete_by_tag, delete_all, new_entry,
}
use self_optimizing_competit.Cache.Tags.{is_member-index_tags}
use self_optimizing_competit.Cache.Tags.Deletion.{
  has_tag, IsTagged, erase-IsTagged, touch-IsTagged, set-IsTagged, delete_by_tag-IsTagged,
  lookup-delete_all, length-delete_all,
}

module _ {V : Type 0} where
  pub data Step (c : InMemoryCache V) : InMemoryCache V → Type 0 where
    got : (now : ℕ) (key : String) → Step c (get now key c).1
    stored :
        (size : V → ℕ) (now : ℕ) (key : String) (value : V) (ttl : Option ℕ) (tags : List String)
        → Step c (set size now key value ttl tags c)
    deleted : (key : String) → Step c (delete key c).1
    looked_up : (now : ℕ) (key : String) → Step c (exists now key c).1
    cleared : Step c (clear c).1
    untagged : (tag : String) → Step c (delete_by_tag tag c).1

  pub data Reach (default_ttl : ℕ) : InMemoryCache V → Type 0 where
    here : Reach default_ttl (init default_ttl)
    next : {c c' : InMemoryCache V} → Reach default_ttl c → Step c c' → Reach default_ttl c'

  got_step :
      (now : ℕ) (key : String) (c : InMemoryCache V)
      → IsTagged c.entries c.tag_index
      → IsTagged (get now key c).1.entries (get now key c).1.tag_index
  unfolding get
  got_step now key c h = elim (Option-cases (lookup key c.entries)) [
    | inl absent ↦ rw (absent, get) h
    | inr (e, known) ↦ elim (Bool-cases (is_expired now e)) [
      | inl over ↦ rw (known, over, get) (erase-IsTagged key c.entries c.tag_index h)
      | inr live ↦
          rw (known, live, get)
            (touch-IsTagged key e
              (record e { accessed_at = now; access_count = e.access_count + 1 }) c.entries
              c.tag_index known refl h)
    ]
  ]

  looked_up_step :
      (now : ℕ) (key : String) (c : InMemoryCache V)
      → IsTagged c.entries c.tag_index
      → IsTagged (exists now key c).1.entries (exists now key c).1.tag_index
  unfolding exists
  looked_up_step now key c h = elim (Option-cases (lookup key c.entries)) [
    | inl absent ↦ rw (absent, exists) h
    | inr (e, known) ↦ elim (Bool-cases (is_expired now e)) [
      | inl over ↦ rw (known, over, exists) (erase-IsTagged key c.entries c.tag_index h)
      | inr live ↦ rw (known, live, exists) h
    ]
  ]

  deleted_step :
      (key : String) (c : InMemoryCache V)
      → IsTagged c.entries c.tag_index
      → IsTagged (delete key c).1.entries (delete key c).1.tag_index
  unfolding delete
  deleted_step key c h = elim (Bool-cases (contains key c.entries)) [
    | inl known ↦ rw (known, delete) (erase-IsTagged key c.entries c.tag_index h)
    | inr absent ↦ rw (absent, delete) h
  ]

  untagged_step :
      (tag : String) (c : InMemoryCache V)
      → IsTagged c.entries c.tag_index
      → IsTagged (delete_by_tag tag c).1.entries (delete_by_tag tag c).1.tag_index
  unfolding delete_by_tag
  untagged_step tag c h = elim (Option-cases (lookup tag c.tag_index)) [
    | inl absent ↦ rw (absent, delete_by_tag) h
    | inr (ks, known) ↦
        let listed : keys_of tag c.tag_index ≡ ks = ap or_no_keys known in
        rw (known, delete_by_tag)
          (subst (λ l. IsTagged (delete_all l c.entries).1 (erase tag c.tag_index)) listed
            (delete_by_tag-IsTagged tag c.entries c.tag_index h))
  ]

  step-IsTagged :
      {c c' : InMemoryCache V}
      → Step c c'
      → IsTagged c.entries c.tag_index
      → IsTagged c'.entries c'.tag_index
  unfolding set clear
  step-IsTagged {c} (got now key) h = got_step now key c h
  step-IsTagged {c} (stored size now key value ttl tags) h =
      set-IsTagged key (new_entry now key value ttl tags c) c.entries c.tag_index h
  step-IsTagged {c} (deleted key) h = deleted_step key c h
  step-IsTagged {c} (looked_up now key) h = looked_up_step now key c h
  step-IsTagged {c} cleared h = record {
    unique = tt;
    unique_tags = tt;
    listed = λ k t has. absurd (ground arith);
  }
  step-IsTagged {c} (untagged tag) h = untagged_step tag c h

  reach_invariant : {d : ℕ} {c : InMemoryCache V} → Reach d c → IsTagged c.entries c.tag_index
  unfolding init
  reach_invariant here = record {
    unique = tt;
    unique_tags = tt;
    listed = λ k t has. absurd (ground arith);
  }
  reach_invariant (next r st) = step-IsTagged st (reach_invariant r)

  -- The answer and the entries, whether the tag is known or not.
  delete_by_tag_cases :
      (tag : String) (c : InMemoryCache V)
      → ((delete_by_tag tag c).0 ≡ (delete_all (keys_of tag c.tag_index) c.entries).0)
        × ((delete_by_tag tag c).1.entries ≡ (delete_all (keys_of tag c.tag_index) c.entries).1)
  unfolding delete_by_tag
  delete_by_tag_cases tag c = elim (Option-cases (lookup tag c.tag_index)) [
    | inl absent ↦ rw (absent, delete_by_tag) (refl, refl)
    | inr (ks, known) ↦ rw (known, delete_by_tag) (refl, refl)
  ]

  -- After any reads, writes, deletions, tests and clearings, deletion by a tag removes exactly the
  -- entries under the keys that are listed for the tag, and answers their number. Every entry that
  -- has the tag is among them: none with the tag is left.
  pub delete_by_tag_exact :
      (d : ℕ) (tag : String) (c : InMemoryCache V)
      → Reach d c
      → let (n, c') = delete_by_tag tag c in
        ((k : String)
          → lookup k c'.entries
            ≡ (if is_member k (keys_of tag c.tag_index) then none else lookup k c.entries))
        × ((k : String) → has_tag tag (lookup k c'.entries) ≡ false)
        × (n + length c'.entries ≡ length c.entries)
  delete_by_tag_exact d tag c r =
      let h = reach_invariant r in
      let (answer, left) = delete_by_tag_cases tag c in
      let found = λ (k : String).
        ap (lookup k) left ∙ lookup-delete_all k (keys_of tag c.tag_index) c.entries h.unique in
      (
        found,
        λ k. ground (arith, found k, h.listed k tag),
        rw (answer, left) (length-delete_all (keys_of tag c.tag_index) c.entries),
      )

  -- A value that is stored under a key with a tag, and then replaced by one with other tags or
  -- none, is removed all the same by a deletion by the first tag, after any history: the index
  -- keeps the tags of values that are gone.
  pub delete_by_tag_stale :
      (d : ℕ) (size : V → ℕ) (t t' : ℕ) (key tag : String) (old new : V) (ttl ttl' : Option ℕ)
      (tags tags' : List String) (c : InMemoryCache V)
      → Reach d c
      → is_member tag tags ≡ true
      → let c' = set size t' key new ttl' tags' (set size t key old ttl tags c) in
        lookup key (delete_by_tag tag c').1.entries ≡ none
  delete_by_tag_stale d size t t' key tag old new ttl ttl' tags tags' c r has =
      let c1 = set size t key old ttl tags c in
      let c2 = set size t' key new ttl' tags' c1 in
      let r' = next (next r (stored size t key old ttl tags)) (stored size t' key new ttl' tags') in
      let listed : is_member key (keys_of tag c2.tag_index) ≡ true =
        unfold set in
        ground (
          arith,
          eq_iff key key,
          is_member-index_tags key key tag tags c.tag_index,
          is_member-index_tags key key tag tags' (index_tags key tags c.tag_index),
        ) in
      (delete_by_tag_exact d tag c2 r').0 key ∙ rw listed refl
