-- ===== src/Deployment/Canary/Completion.antt =====
-- A canary that is incremented again and again ends.
use text.Mathlib.TextEquality.{eq_iff}
use self_optimizing_competit.Base.{
  ℕ, zero, suc, ◌+◌, ◌*◌, ◌<◌, ◌≤◌, ◌≡◌, refl, sym, ◌∙◌, min, true, false, Option, none, some,
  String, arith, leb, if◌then◌else◌, Bool-cases, inl, inr,
}
use self_optimizing_competit.Base.Dict.{
  lookup, insert, key_eq, IsDict, lookup-insert, lookup-erase, insert-IsDict, erase-IsDict,
}
use self_optimizing_competit.Deployment.Canary.{
  CanaryDeployment, increment_canary, get_traffic_percentage, shift,
}

-- So many calls of `increment_canary`
abbrev pub increments : ℕ → ℕ → String → ℕ → CanaryDeployment → CanaryDeployment
increments unit zero i increment c = c
increments unit (suc n) i increment c =
    (increment_canary unit i increment (increments unit n i increment c)).1

abbrev pub share : ℕ → ℕ → Option ℕ
share full p = if leb full p then none else some p

shift_lem :
    (unit : ℕ) (i j : String) (p : ℕ) (c : CanaryDeployment)
    → IsDict c.active_deployments
    → IsDict (shift unit i p c).1.active_deployments
      × (lookup j (shift unit i p c).1.active_deployments
          ≡ (if key_eq i j then share (100 * unit) p else lookup j c.active_deployments))
shift_lem unit i j p c u =
    let u' = insert-IsDict i p c.active_deployments u in
    let at_insert = lookup-insert i j p c.active_deployments in
    let at_erase = lookup-erase i j (insert i p c.active_deployments) u' in
    elim (Bool-cases (leb (100 * unit) p)) [
      | inl full ↦ rw full (erase-IsDict i _ u', ground (arith, at_erase, at_insert))
      | inr part ↦ rw part (u', at_insert)
    ]

increment_absent :
    (unit : ℕ) (i : String) (increment : ℕ) (c : CanaryDeployment)
    → lookup i c.active_deployments ≡ none
    → (increment_canary unit i increment c).1 ≡ c
unfolding increment_canary
increment_absent unit i increment c e = rw (e, increment_canary) refl

increment_present :
    (unit : ℕ) (i : String) (increment p : ℕ) (c : CanaryDeployment)
    → lookup i c.active_deployments ≡ some p
    → (increment_canary unit i increment c).1
      ≡ (shift unit i (min (100 * unit) (p + increment)) c).1
unfolding increment_canary
increment_present unit i increment p c e = rw (e, increment_canary) refl

share_capped : (full p : ℕ) → share full (min full p) ≡ share full p
share_capped full p = ground arith

share_later : (full p q : ℕ) → p ≤ q → leb full p ≡ true → share full q ≡ none
share_later full p q h done = ground arith

enough_increments : (n increment : ℕ) → 0 < increment → n ≤ n * increment
enough_increments n zero h = absurd (omega arith)
enough_increments n (suc increment) h = omega arith

-- What is known after some calls
abbrev IsAt : String → Option ℕ → CanaryDeployment → CanaryDeployment → Type 0
IsAt i o c c' =
    IsDict c'.active_deployments
    × (lookup i c'.active_deployments ≡ o)
    × ((j : String)
        → key_eq i j ≡ false
        → lookup j c'.active_deployments ≡ lookup j c.active_deployments)

step_lem :
    (unit : ℕ) (i : String) (increment p : ℕ) (c c' : CanaryDeployment)
    → 0 < increment
    → IsAt i (share (100 * unit) p) c c'
    → IsAt i (share (100 * unit) (p + increment)) c (increment_canary unit i increment c').1
step_lem unit i increment p c c' positive (u, here, others) =
    elim (Bool-cases (leb (100 * unit) p)) [
      | inl full ↦
          let gone : lookup i c'.active_deployments ≡ none =
            here ∙ share_later (100 * unit) p p (omega arith) full in
          rw (increment_absent unit i increment c' gone)
            (u, gone ∙ sym (share_later (100 * unit) p (p + increment) (omega arith) full), others)
      | inr part ↦
          let there : lookup i c'.active_deployments ≡ some p = here ∙ rw part refl in
          let next = min (100 * unit) (p + increment) in
          rw (increment_present unit i increment p c' there) (
            (shift_lem unit i i next c' u).0,
            (shift_lem unit i i next c' u).1
                ∙ rw ((eq_iff i i).1 refl) (share_capped (100 * unit) (p + increment)),
            λ j other. (shift_lem unit i j next c' u).1 ∙ rw other (others j other),
          )
    ]

increments_lem :
    (unit n : ℕ) (i : String) (initial increment : ℕ) (c : CanaryDeployment)
    → IsDict c.active_deployments
    → lookup i c.active_deployments ≡ some initial
    → initial < 100 * unit
    → 0 < increment
    → IsAt i (share (100 * unit) (initial + n * increment)) c (increments unit n i increment c)
increments_lem unit zero i initial increment c u known partial positive =
    (u, known ∙ ground arith, λ j other. refl)
increments_lem unit (suc n) i initial increment c u known partial positive =
    let before = increments_lem unit n i initial increment c u known partial positive in
    let same : initial + n * increment + increment ≡ initial + suc n * increment = omega arith in
    rw same at (
      step_lem unit i increment (initial + n * increment) c (increments unit n i increment c)
        positive before)

-- A canary that starts below 100 percent, with a positive increment, has after `n` calls of
-- `increment_canary` the traffic that it started with and `n` increments, as long as that is less
-- than 100 percent, and is no longer active from then on; the other canaries stay as they are. All
-- numbers are exact and in steps of which `unit` make one percent, for any `unit`, so it has ended
-- after `100 * unit` calls at the latest.
pub increments-share :
    (unit : ℕ) (i : String) (initial increment : ℕ) (c : CanaryDeployment)
    → IsDict c.active_deployments
    → get_traffic_percentage i c ≡ some initial
    → initial < 100 * unit
    → 0 < increment
    → ((n : ℕ) (j : String)
        → get_traffic_percentage j (increments unit n i increment c) ≡ (
            if key_eq i j
            then (let p = initial + n * increment in if leb (100 * unit) p then none else some p)
            else get_traffic_percentage j c))
      × (get_traffic_percentage i (increments unit (100 * unit) i increment c) ≡ none)
unfolding get_traffic_percentage
increments-share unit i initial increment c u known partial positive =
    let after = λ (n : ℕ). increments_lem unit n i initial increment c u known partial positive in
    let full = 100 * unit in
    let enough = enough_increments full increment positive in
    (
      λ n j. elim (Bool-cases (key_eq i j)) [
        | inl same ↦ rw (same, sym ((eq_iff i j).0 same)) (after n).1
        | inr other ↦ rw other ((after n).2 j other)
      ],
      (after full).1
          ∙ share_later full full (initial + full * increment) (omega arith) (ground arith),
    )
