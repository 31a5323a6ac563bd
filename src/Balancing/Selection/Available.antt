-- ===== src/Balancing/Selection/Available.antt =====
-- Which instances of core/infrastructure/distributed/load_balancing.py may be selected: an answer
-- among those that are up, and an answer among all that are registered.
use self_optimizing_competit.Base.{
  ℕ, ◌+◌, ◌*◌, ◌≤◌, ◌<◌, ◌≡◌, ◌∙◌, ◌&&◌, keep, ◌⊎◌, refl, ap, Bool, true, false, List, [], ◌∷◌, map,
  arith, Bool-cases, inl, inr,
}
use mathlib.Core.Path.{subst, sym}
use self_optimizing_competit.Balancing.Registry.{
  Heap, ServiceHealth, ServiceInstance, is_status, is_healthy, is_alive,
}
use self_optimizing_competit.Balancing.Selection.{
  LoadBalancingAlgorithm, Selected, found, nobody, index_error, zero_division, total,
}

abbrev pub IsIn : ℕ → List ℕ → Type 0
IsIn r [] = ⊥
IsIn r (q ∷ refs) = (r ≡ q) ⊎ IsIn r refs

abbrev pub weights_of : Heap → List ℕ → List ℕ
weights_of heap refs = map (λ r. (heap r).weight) refs

-- Nobody is there to select, or one of those that are; or their weights add up to 0 and count.
abbrev pub IsAmong : LoadBalancingAlgorithm → Heap → List ℕ → Selected → Type 0
IsAmong algorithm heap [] answer = answer ≡ nobody
IsAmong algorithm heap refs (found r) = IsIn r refs
IsAmong algorithm heap refs zero_division =
    (algorithm ≡ LoadBalancingAlgorithm.weighted_round_robin) × (total (weights_of heap refs) ≡ 0)
IsAmong algorithm heap refs _ = ⊥

-- Healthy, and with a heartbeat less than 30 seconds old.
abbrev pub IsUp : ℕ → ServiceInstance → Type 0
IsUp now i = (i.health_status ≡ ServiceHealth.healthy) × (now < i.last_heartbeat + 30 * 1000000)

abbrev pub IsDown : ℕ → ServiceInstance → Type 0
IsDown now i =
    (¬ (i.health_status ≡ ServiceHealth.healthy)) ⊎ (i.last_heartbeat + 30 * 1000000 ≤ now)

abbrev pub AllDown : ℕ → Heap → List ℕ → Type 0
AllDown now heap [] = Unit
AllDown now heap (r ∷ refs) = IsDown now (heap r) × AllDown now heap refs

-- Every instance that is not down has the weight 0.
abbrev pub AllWeightless : ℕ → Heap → List ℕ → Type 0
AllWeightless now heap [] = Unit
AllWeightless now heap (r ∷ refs) =
    (IsDown now (heap r) ⊎ ((heap r).weight ≡ 0)) × AllWeightless now heap refs

abbrev pub IsAnswer : ℕ → LoadBalancingAlgorithm → Heap → List ℕ → Selected → Type 0
IsAnswer now algorithm heap refs nobody = AllDown now heap refs
IsAnswer now algorithm heap refs (found r) = IsIn r refs × IsUp now (heap r)
IsAnswer now algorithm heap refs zero_division =
    (algorithm ≡ LoadBalancingAlgorithm.weighted_round_robin) × AllWeightless now heap refs
IsAnswer now algorithm heap refs _ = ⊥

abbrev is_up : ℕ → ServiceInstance → Bool
is_up now i = is_healthy i && is_alive now i

is_status-healthy :
    (h : ServiceHealth) → is_status h ServiceHealth.healthy ≡ true → h ≡ ServiceHealth.healthy
is_status-healthy ServiceHealth.healthy e = refl
is_status-healthy ServiceHealth.degraded e = absurd (ground (arith, e))
is_status-healthy ServiceHealth.unhealthy e = absurd (ground (arith, e))
is_status-healthy ServiceHealth.unknown e = absurd (ground (arith, e))

is_up-IsUp : (now : ℕ) (i : ServiceInstance) → is_up now i ≡ true → IsUp now i
is_up-IsUp now i e = elim (Bool-cases (is_healthy i)) [
  | inl good ↦ (is_status-healthy i.health_status good, ground (arith, good, e))
  | inr bad ↦ absurd (ground (arith, bad, e))
]

is_up-IsDown : (now : ℕ) (i : ServiceInstance) → is_up now i ≡ false → IsDown now i
is_up-IsDown now i e = elim (Bool-cases (is_healthy i)) [
  | inl good ↦ inr (ground (arith, good, e))
  | inr bad ↦ inl (λ h. absurd (cc (sym bad ∙ ap (λ x. is_status x ServiceHealth.healthy) h)))
]

keep-IsIn :
    (now : ℕ) (heap : Heap) (r : ℕ) (refs : List ℕ)
    → IsIn r (keep (λ q. is_up now (heap q)) refs)
    → IsIn r refs × IsUp now (heap r)
keep-IsIn now heap r [] at = absurd at
keep-IsIn now heap r (q ∷ refs) at = elim (Bool-cases (is_up now (heap q))) [
  | inl up ↦ elim (rw up at at) [
    | inl same ↦ (inl same, rw same (is_up-IsUp now (heap q) up))
    | inr later ↦ let (inside, good) = keep-IsIn now heap r refs later in (inr inside, good)
  ]
  | inr down ↦ let (inside, good) = keep-IsIn now heap r refs (rw down at at) in (inr inside, good)
]

keep-AllDown :
    (now : ℕ) (heap : Heap) (refs : List ℕ)
    → keep (λ q. is_up now (heap q)) refs ≡ []
    → AllDown now heap refs
keep-AllDown now heap [] e = tt
keep-AllDown now heap (q ∷ refs) e = elim (Bool-cases (is_up now (heap q))) [
  | inl up ↦ absurd (ground (arith, up, e))
  | inr down ↦ (is_up-IsDown now (heap q) down, keep-AllDown now heap refs (rw down at e))
]

keep-AllWeightless :
    (now : ℕ) (heap : Heap) (refs : List ℕ)
    → total (weights_of heap (keep (λ q. is_up now (heap q)) refs)) ≡ 0
    → AllWeightless now heap refs
keep-AllWeightless now heap [] e = tt
keep-AllWeightless now heap (q ∷ refs) e = elim (Bool-cases (is_up now (heap q))) [
  | inl up ↦
      let sum = rw up at e in
      (inr (omega (arith, sum)), keep-AllWeightless now heap refs (omega (arith, sum)))
  | inr down ↦
      (inl (is_up-IsDown now (heap q) down), keep-AllWeightless now heap refs (rw down at e))
]

-- An answer among those that are up, said of all that are registered.
pub among-IsAnswer :
    (now : ℕ) (algorithm : LoadBalancingAlgorithm) (heap : Heap) (refs kept : List ℕ)
    → keep (λ q. is_up now (heap q)) refs ≡ kept
    → (answer : Selected) → IsAmong algorithm heap kept answer
    → IsAnswer now algorithm heap refs answer
among-IsAnswer now algorithm heap refs [] e answer h =
    subst (IsAnswer now algorithm heap refs) (sym h) (keep-AllDown now heap refs e)
among-IsAnswer now algorithm heap refs (k ∷ kept) e (found r) h =
    keep-IsIn now heap r refs (subst (IsIn r) (sym e) h)
among-IsAnswer now algorithm heap refs (k ∷ kept) e nobody h = absurd h
among-IsAnswer now algorithm heap refs (k ∷ kept) e index_error h = absurd h
among-IsAnswer now algorithm heap refs (k ∷ kept) e zero_division (w, h) =
    (w, keep-AllWeightless now heap refs (ap (λ q. total (weights_of heap q)) e ∙ h))
