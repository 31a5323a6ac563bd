-- ===== src/Cache/Tags.antt =====
-- The index of tags, and deletion by tag.
pub mod Deletion
pub mod History
use mathlib.Core.Path.{subst}
use text.Mathlib.TextEquality.{eq_iff}
use self_optimizing_competit.Base.{
  ℕ, ◌+◌, ◌≡◌, refl, sym, ap, ◌∙◌, Bool, true, false, ◌&&◌, ◌||◌, Option, none, some, String, List,
  [], ◌∷◌, arith, length, if◌then◌else◌, Bool-cases, Option-cases, inl, inr,
}
use self_optimizing_competit.Base.Dict.{
  Dict, lookup, contains, insert, erase, key_eq, IsDict, lookup-insert, lookup-erase, insert-IsDict,
  erase-IsDict, insert_every,
}
use self_optimizing_competit.Cache.{
  CacheEntry, InMemoryCache, is_member, add_key, keys_of, or_no_keys, index_tags, is_expired, init,
  get, set, delete, exists, clear, delete_by_tag, delete_all, drop_expired, hit, new_entry,
}

is_member-add_key :
    (j k : String) (ks : List String) → is_member j (add_key k ks) ≡ (key_eq j k || is_member j ks)
is_member-add_key j k ks = ground (arith, eq_iff j k)

pub index_tags-IsDict :
    (key : String) (tags : List String) (index : Dict (List String))
    → IsDict index
    → IsDict (index_tags key tags index)
index_tags-IsDict key [] index h = h
index_tags-IsDict key (t ∷ tags) index h = index_tags-IsDict key tags _ (insert-IsDict t _ index h)

keys_of-insert :
    (t j : String) (ks : List String) (index : Dict (List String))
    → keys_of j (insert t ks index) ≡ (if key_eq t j then ks else keys_of j index)
keys_of-insert t j ks index = ground (arith, lookup-insert t j ks index)

-- A key is listed under a tag if it was, or if it is the new one and has the tag.
pub is_member-index_tags :
    (k key t : String) (tags : List String) (index : Dict (List String))
    → is_member k (keys_of t (index_tags key tags index))
      ≡ (is_member k (keys_of t index) || (key_eq k key && is_member t tags))
is_member-index_tags k key t [] index = ground arith
is_member-index_tags k key t (s ∷ tags) index =
    let listed = add_key key (keys_of s index) in
    is_member-index_tags k key t tags (insert s listed index) ∙ elim (Bool-cases (key_eq s t)) [
      | inl same ↦
          let at_t : s ≡ t = (eq_iff s t).0 same in
          rw
            (keys_of-insert s t listed index, same, is_member-add_key k key (keys_of s index), at_t)
            (ground (arith, eq_iff t t))
      | inr other ↦
          rw (keys_of-insert s t listed index, other) (ground (arith, eq_iff t s, eq_iff s t))
    ]
