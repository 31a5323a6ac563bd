-- ===== src/Balancing/Selection/Answers.antt =====
-- What a selection may answer, whatever the algorithm.
use self_optimizing_competit.Base.{
  ℕ, zero, suc, ◌<◌, ◌≡◌, refl, ap, Bool, true, false, Option, none, some, String, List, [], ◌∷◌,
  arith, length, get_elem?, ltb, ◌==◌, if◌then◌else◌, Bool-cases, inl, inr,
}
use native.Mathlib.Nat.{mod-lt}
use mathlib.Core.Path.{subst, sym}
use self_optimizing_competit.Base.Dict.{lookup}
use self_optimizing_competit.Balancing.Registry.{
  Heap, ServiceRegistry, get_instances, get_healthy_instances,
}
use self_optimizing_competit.Balancing.Selection.{
  LoadBalancer, LoadBalancingAlgorithm, pick, selected, select_round_robin, least, total, by_id,
  session_key, remembered, select_weighted, select_sticky, choose, select_among, select_instance,
}
use self_optimizing_competit.Balancing.Selection.Available.{
  IsIn, weights_of, IsAmong, IsAnswer, among-IsAnswer,
}

get_elem?-IsIn :
    (refs : List ℕ) (i : ℕ) → i < length refs → (r : ℕ) × (get_elem? refs i ≡ some r) × IsIn r refs
get_elem?-IsIn [] i h = absurd (omega arith)
get_elem?-IsIn (r ∷ refs) zero h = (r, refl, inl refl)
get_elem?-IsIn (r ∷ refs) (suc i) h =
    let (q, e, at) = get_elem?-IsIn refs i (omega arith) in (q, e, inr at)

pick-IsAmong :
    (algorithm : LoadBalancingAlgorithm) (heap : Heap) (r : ℕ) (refs : List ℕ) (i : ℕ)
    → i < length (r ∷ refs)
    → IsAmong algorithm heap (r ∷ refs) (pick (r ∷ refs) i)
pick-IsAmong algorithm heap r refs i h =
    let (q, e, at) = get_elem?-IsIn (r ∷ refs) i h in
    subst (λ o. IsAmong algorithm heap (r ∷ refs) (selected o)) (sym e) at

chosen-IsIn :
    (less : Bool) (x r q : ℕ) (refs : List ℕ)
    → IsIn x ((if less then q else r) ∷ refs)
    → IsIn x (r ∷ q ∷ refs)
chosen-IsIn true x r q refs at = inr at
chosen-IsIn false x r q refs (inl same) = inl same
chosen-IsIn false x r q refs (inr at) = inr (inr at)

least-IsIn : (heap : Heap) (r : ℕ) (refs : List ℕ) → IsIn (least heap r refs) (r ∷ refs)
least-IsIn heap r [] = inl refl
least-IsIn heap r (q ∷ refs) =
    let less = ltb (heap q).connection_count (heap r).connection_count in
    chosen-IsIn less (least heap r (q ∷ refs)) r q refs
      (least-IsIn heap (if less then q else r) refs)

by_id-IsIn :
    (heap : Heap) (id : String) (refs : List ℕ) (r : ℕ) → by_id heap id refs ≡ some r → IsIn r refs
by_id-IsIn heap id [] r e = absurd (ground arith)
by_id-IsIn heap id (q ∷ refs) r e = ground (arith, by_id-IsIn heap id refs r)

remembered-IsIn :
    (heap : Heap) (refs : List ℕ) (id : Option String) (r : ℕ)
    → remembered heap refs id ≡ some r
    → IsIn r refs
remembered-IsIn heap refs none r e = absurd (ground arith)
remembered-IsIn heap refs (some id) r e = by_id-IsIn heap id refs r e

length-weights : (heap : Heap) (refs : List ℕ) → length (weights_of heap refs) ≡ length refs
length-weights heap [] = refl
length-weights heap (r ∷ refs) = ap suc (length-weights heap refs)

module _ (hash_index : String → ℕ → ℕ) (choice : ℕ → ℕ) (choices : List ℕ → ℕ) where
  -- The index of a draw is one of the list, and that of a hash is a remainder.
  pub record IsDraw : Type 0 where
    pub hash_in : (client : String) (n : ℕ) → hash_index client (suc n) < suc n
    pub choice_in : (n : ℕ) → choice (suc n) < suc n
    pub choices_in : (ws : List ℕ) → 0 < total ws → choices ws < length ws

  fresh_with :
      (algorithm : LoadBalancingAlgorithm) (heap : Heap) (name client : String) (r : ℕ)
      (refs : List ℕ) (b : LoadBalancer)
      → IsDraw
      → (o : Option ℕ)
      → remembered heap (r ∷ refs) (lookup (session_key name client) b.session_affinity) ≡ o
      → IsAmong algorithm heap
          (r ∷ refs)
          (select_sticky hash_index choice choices heap name client (r ∷ refs) b).0
  unfolding select_sticky
  fresh_with algorithm heap name client r refs b d none e =
      rw (e, select_sticky) (pick-IsAmong algorithm heap r refs _ (d.choice_in (length refs)))
  fresh_with algorithm heap name client r refs b d (some q) e =
      rw (e, select_sticky)
        (remembered-IsIn heap (r ∷ refs) (lookup (session_key name client) b.session_affinity) q e)

  weighted-IsAmong :
      (heap : Heap) (r : ℕ) (refs : List ℕ)
      → IsDraw
      → IsAmong LoadBalancingAlgorithm.weighted_round_robin heap
          (r ∷ refs)
          (select_weighted hash_index choice choices heap (r ∷ refs))
  unfolding select_weighted
  weighted-IsAmong heap r refs d =
      let ws = weights_of heap (r ∷ refs) in
      elim (Bool-cases (total ws == 0)) [
        | inl weightless ↦ rw (weightless, select_weighted) (refl, ground arith)
        | inr weighty ↦
            rw (weighty, select_weighted)
              (pick-IsAmong _ heap r refs (choices ws)
                (omega (arith, length-weights heap (r ∷ refs), d.choices_in ws (ground arith))))
      ]

  choose-IsAmong :
      (algorithm : LoadBalancingAlgorithm) (client : Option String) (heap : Heap) (name : String)
      (r : ℕ) (refs : List ℕ) (b : LoadBalancer)
      → IsDraw
      → IsAmong algorithm heap
          (r ∷ refs)
          (choose hash_index choice choices algorithm client heap name r refs b).0
  unfolding select_round_robin
  choose-IsAmong LoadBalancingAlgorithm.round_robin client heap name r refs b d =
      pick-IsAmong _ heap r refs _ (mod-lt _ (omega arith))
  choose-IsAmong LoadBalancingAlgorithm.least_connections client heap name r refs b d =
      least-IsIn heap r refs
  choose-IsAmong LoadBalancingAlgorithm.weighted_round_robin client heap name r refs b d =
      weighted-IsAmong heap r refs d
  choose-IsAmong LoadBalancingAlgorithm.ip_hash (some client) heap name r refs b d =
      pick-IsAmong _ heap r refs _ (d.hash_in client (length refs))
  choose-IsAmong LoadBalancingAlgorithm.ip_hash none heap name r refs b d = inl refl
  choose-IsAmong LoadBalancingAlgorithm.random client heap name r refs b d =
      pick-IsAmong _ heap r refs _ (d.choice_in (length refs))
  choose-IsAmong LoadBalancingAlgorithm.sticky (some client) heap name r refs b d =
      fresh_with _ heap name client r refs b d _ refl
  choose-IsAmong LoadBalancingAlgorithm.sticky none heap name r refs b d = inl refl

  select_among-IsAmong :
      (client : Option String) (heap : Heap) (name : String) (refs : List ℕ) (b : LoadBalancer)
      → IsDraw
      → IsAmong b.algorithm heap refs
          (select_among hash_index choice choices client heap name refs b).0
  select_among-IsAmong client heap name [] b d = refl
  select_among-IsAmong client heap name (r ∷ refs) b d =
      choose-IsAmong b.algorithm _ heap name r refs b d

  -- For any of the six algorithms, with any client, registry and state, and hashes and draws that
  -- give an index of the list they are for: an instance that is selected is one that is registered
  -- under the name, with healthy status and a heartbeat less than 30 seconds old. Nobody is selected
  -- only if there is no such instance. Nothing else happens, but for a weighted selection that
  -- divides by zero, where the weights of all such instances are 0. No index is out of range.
  pub select_instance-IsAnswer :
      (now : ℕ) (name : String) (client : Option String) (s : ServiceRegistry) (b : LoadBalancer)
      → IsDraw
      → IsAnswer now b.algorithm s.heap
          (get_instances name s)
          (select_instance hash_index choice choices now name client s b).0
  unfolding select_instance get_healthy_instances
  select_instance-IsAnswer now name client s b d =
      among-IsAnswer now b.algorithm s.heap (get_instances name s) _ refl _
        (select_among-IsAmong client s.heap name (get_healthy_instances now name s) b d)
