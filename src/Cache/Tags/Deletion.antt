-- ===== src/Cache/Tags/Deletion.antt =====
-- What `delete_by_tag` removes, in every history of a cache.
use text.Mathlib.TextEquality.{eq_iff}
use self_optimizing_competit.Base.{
  suc, ◌+◌, ◌≡◌, refl, Bool, true, false, Option, none, some, String, List, [], ◌∷◌, arith, length,
  if◌then◌else◌,
}
use self_optimizing_competit.Base.Dict.{
  Dict, lookup, contains, insert, erase, IsDict, lookup-insert, lookup-erase, insert-IsDict,
  erase-IsDict,
}
use self_optimizing_competit.Cache.{CacheEntry, is_member, keys_of, index_tags, delete_all}
use self_optimizing_competit.Cache.Tags.{index_tags-IsDict, is_member-index_tags}

module _ {V : Type 0} where
  -- An entry is listed under each of its tags.
  abbrev pub has_tag : String → Option (CacheEntry V) → Bool
  has_tag t none = false
  has_tag t (some e) = is_member t e.tags

  pub record IsTagged (entries : Dict (CacheEntry V)) (index : Dict (List String)) : Type 0 where
    pub unique : IsDict entries
    pub unique_tags : IsDict index
    pub listed :
        (k t : String) → has_tag t (lookup k entries) ≡ true → is_member k (keys_of t index) ≡ true

  pub erase-IsTagged :
      (key : String) (d : Dict (CacheEntry V)) (index : Dict (List String))
      → IsTagged d index
      → IsTagged (erase key d) index
  erase-IsTagged key d index h = record {
    unique = erase-IsDict key d h.unique;
    unique_tags = h.unique_tags;
    listed = λ k t has. h.listed k t (ground (arith, has, lookup-erase key k d h.unique));
  }

  -- An entry that was touched keeps its tags.
  pub touch-IsTagged :
      (key : String) (e e' : CacheEntry V) (d : Dict (CacheEntry V)) (index : Dict (List String))
      → lookup key d ≡ some e
      → e'.tags ≡ e.tags
      → IsTagged d index
      → IsTagged (insert key e' d) index
  touch-IsTagged key e e' d index known same h = record {
    unique = insert-IsDict key e' d h.unique;
    unique_tags = h.unique_tags;
    listed = λ k t has. h.listed k t (ground (arith, has, lookup-insert key k e' d, eq_iff key k));
  }

  pub set-IsTagged :
      (key : String) (e : CacheEntry V) (d : Dict (CacheEntry V)) (index : Dict (List String))
      → IsTagged d index
      → IsTagged (insert key e d) (index_tags key e.tags index)
  set-IsTagged key e d index h = record {
    unique = insert-IsDict key e d h.unique;
    unique_tags = index_tags-IsDict key e.tags index h.unique_tags;
    listed = λ k t has. ground (
      arith,
      has,
      is_member-index_tags k key t e.tags index,
      lookup-insert key k e d,
      eq_iff key k,
      eq_iff k key,
      h.listed k t,
    );
  }

  -- The loop: what stays, and how much goes.
  delete_all-IsDict :
      (ks : List String) (d : Dict (CacheEntry V)) → IsDict d → IsDict (delete_all ks d).1
  delete_all-IsDict [] d h = h
  delete_all-IsDict (k ∷ ks) d h =
      ground (arith, delete_all-IsDict ks (erase k d) (erase-IsDict k d h))

  pub lookup-delete_all :
      (j : String) (ks : List String) (d : Dict (CacheEntry V))
      → IsDict d
      → lookup j (delete_all ks d).1 ≡ (if is_member j ks then none else lookup j d)
  lookup-delete_all j [] d h = refl
  lookup-delete_all j (k ∷ ks) d h = ground (
    arith,
    eq_iff j k,
    eq_iff k j,
    lookup-erase k j d h,
    lookup-delete_all j ks (erase k d) (erase-IsDict k d h),
  )

  length-erase :
      (k : String) (d : Dict (CacheEntry V))
      → length d ≡ (if contains k d then suc (length (erase k d)) else length (erase k d))
  length-erase k [] = refl
  length-erase k ((j, e) ∷ d) = ground (arith, length-erase k d)

  pub length-delete_all :
      (ks : List String) (d : Dict (CacheEntry V))
      → (delete_all ks d).0 + length (delete_all ks d).1 ≡ length d
  length-delete_all [] d = omega arith
  length-delete_all (k ∷ ks) d = ground (arith, length-erase k d, length-delete_all ks (erase k d))

  pub delete_by_tag-IsTagged :
      (tag : String) (d : Dict (CacheEntry V)) (index : Dict (List String))
      → IsTagged d index
      → IsTagged (delete_all (keys_of tag index) d).1 (erase tag index)
  delete_by_tag-IsTagged tag d index h = record {
    unique = delete_all-IsDict (keys_of tag index) d h.unique;
    unique_tags = erase-IsDict tag index h.unique_tags;
    listed = λ k t has. ground (
      arith,
      has,
      lookup-delete_all k (keys_of tag index) d h.unique,
      lookup-erase tag t index h.unique_tags,
      eq_iff tag t,
      h.listed k t,
    );
  }
