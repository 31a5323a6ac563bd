-- ===== src/Balancing/Selection/Rotation.antt =====
-- Round robin over a list of instances that stays as it is.
use native.Mathlib.Nat.{mod-add-mod}
use self_optimizing_competit.Base.{
  ℕ, zero, suc, ◌+◌, ◌%◌, ◌≡◌, ap, ◌∙◌, String, List, arith, length,
}
use self_optimizing_competit.Base.Dict.{lookup, lookup-insert_self}
use self_optimizing_competit.Balancing.Selection.{LoadBalancer, pick, index_of, select_round_robin}

-- The balancer after some selections.
abbrev pub after : ℕ → String → List ℕ → LoadBalancer → LoadBalancer
after zero name refs b = b
after (suc n) name refs b = after n name refs (select_round_robin name refs b).1

abbrev pub position : String → LoadBalancer → ℕ
position name b = index_of (lookup name b.round_robin_index)

position-select :
    (name : String) (refs : List ℕ) (b : LoadBalancer)
    → position name (select_round_robin name refs b).1 ≡ (position name b + 1) % length refs
unfolding select_round_robin
position-select name refs b =
    ap index_of (lookup-insert_self name ((position name b + 1) % length refs) b.round_robin_index)

position-after :
    (n : ℕ) (name : String) (refs : List ℕ) (b : LoadBalancer)
    → position name (after n name refs b) % length refs ≡ (position name b + n) % length refs
position-after zero name refs b = ap (λ k. k % length refs) (omega arith)
position-after (suc n) name refs b =
    position-after n name refs (select_round_robin name refs b).1
    ∙ ap (λ k. (k + n) % length refs) (position-select name refs b)
    ∙ mod-add-mod (position name b + 1) (length refs) n
    ∙ ap (λ k. k % length refs) (omega arith)

-- Over instances that stay the same, selection number `n`, counted from 0, is the instance `n`
-- places on from the stored index, starting over at the end of the list.
pub select_round_robin-after :
    (n : ℕ) (name : String) (refs : List ℕ) (b : LoadBalancer)
    → (select_round_robin name refs (after n name refs b)).0
      ≡ pick refs ((position name b + n) % length refs)
unfolding select_round_robin
select_round_robin-after n name refs b = ap (pick refs) (position-after n name refs b)
