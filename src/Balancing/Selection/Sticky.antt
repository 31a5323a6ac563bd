-- ===== src/Balancing/Selection/Sticky.antt =====
-- Sessions that stay with an instance.
use text.Mathlib.TextEquality.{eq_iff}
use self_optimizing_competit.Base.{
  ℕ, ◌≡◌, refl, sym, ap, ◌∙◌, Option, none, some, String, List, [], ◌∷◌, arith, length,
}
use self_optimizing_competit.Base.Dict.{lookup, lookup-insert_self}
use self_optimizing_competit.Balancing.Registry.{Heap}
use self_optimizing_competit.Balancing.Selection.{
  LoadBalancer, found, pick, by_id, id_at, session_key, remembered, select_sticky,
}

id-by_id :
    (heap : Heap) (id : String) (refs : List ℕ) (r : ℕ)
    → by_id heap id refs ≡ some r
    → (heap r).id ≡ id
id-by_id heap id [] r e = absurd (ground arith)
id-by_id heap id (q ∷ refs) r e = ground (arith, eq_iff (heap q).id id, id-by_id heap id refs r)

session-remembered :
    (heap : Heap) (refs : List ℕ) (o : Option String) (r : ℕ)
    → remembered heap refs o ≡ some r
    → o ≡ some (heap r).id
session-remembered heap refs none r e = absurd (ground arith)
session-remembered heap refs (some id) r e = ap (λ x. some x) (sym (id-by_id heap id refs r e))

module _ (hash_index : String → ℕ → ℕ) (choice : ℕ → ℕ) (choices : List ℕ → ℕ) where
  -- The identifier of the instance that is given out is the session's.
  session-select_sticky :
      (heap : Heap) (name client : String) (refs : List ℕ) (b : LoadBalancer) (r : ℕ) (o : Option ℕ)
      → remembered heap refs (lookup (session_key name client) b.session_affinity) ≡ o
      → (select_sticky hash_index choice choices heap name client refs b).0 ≡ found r
      → lookup
          (session_key name client)
          (select_sticky hash_index choice choices heap name client refs b).1.session_affinity
        ≡ some (heap r).id
  unfolding select_sticky
  session-select_sticky heap name client refs b r none e answer =
      let at_r : pick refs (choice (length refs)) ≡ found r = ground (arith, e, answer) in
      rw (e, select_sticky)
        (lookup-insert_self (session_key name client)
            (id_at heap (pick refs (choice (length refs)))) b.session_affinity
          ∙ ap (λ x. some (id_at heap x)) at_r)
  session-select_sticky heap name client refs b r (some q) e answer =
      let at_r : q ≡ r = ground (arith, e, answer) in
      rw (e, select_sticky)
        (session-remembered heap refs (lookup (session_key name client) b.session_affinity) q e
          ∙ ap (λ x. some (heap x).id) at_r)

  again_with :
      (heap : Heap) (name client : String) (later : List ℕ) (b : LoadBalancer) (r : ℕ)
      → remembered heap later (lookup (session_key name client) b.session_affinity) ≡ some r
      → select_sticky hash_index choice choices heap name client later b ≡ (found r, b)
  unfolding select_sticky
  again_with heap name client later b r e = rw (e, select_sticky) refl

  -- A client that was given an instance of a service is given it again, and nothing is written,
  -- whatever the draws and whatever else became healthy or not in between, if the instance is the
  -- first of the healthy ones with its identifier and no session was written since.
  pub select_sticky_again :
      (heap : Heap) (name client : String) (refs later : List ℕ) (b : LoadBalancer) (r : ℕ)
      → (select_sticky hash_index choice choices heap name client refs b).0 ≡ found r
      → by_id heap (heap r).id later ≡ some r
      → let b' = (select_sticky hash_index choice choices heap name client refs b).1 in
        select_sticky hash_index choice choices heap name client later b' ≡ (found r, b')
  select_sticky_again heap name client refs later b r e still =
      let b' = (select_sticky hash_index choice choices heap name client refs b).1 in
      again_with heap name client later b' r (
        ap (remembered heap later) (session-select_sticky heap name client refs b r _ refl e)
        ∙ still)
