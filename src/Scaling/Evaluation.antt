-- ===== src/Scaling/Evaluation.antt =====
-- What the loop makes of a policy: it asks for another count, does nothing, or divides by zero.
use self_optimizing_competit.Base.{
  ℕ, ◌+◌, ◌-◌, ◌*◌, ◌≤◌, ◌<◌, ◌≡◌, ◌⊎◌, max, min, refl, true, false, Option, none, some, List, [],
  ◌∷◌, arith, length, drop, ltb, ltb→lt, ◌==◌, if◌then◌else◌, Bool-cases, inl, inr,
}
use mathlib.Core.Path.{subst, sym}
use self_optimizing_competit.Base.Dict.{lookup}
use self_optimizing_competit.Scaling.{
  ScalingPolicy, ScalingOrchestrator, Verdict, skip, divide_by_zero, ask, or_none, cooling, sum,
  judge, evaluate,
}

-- The metrics of the service of a policy, the oldest first.
abbrev pub history : ScalingPolicy → ScalingOrchestrator → List ℕ
history p o = or_none (lookup p.service_name o.metric_history)

-- The newest of them, as many as the policy wants to see: it sees all if it wants none.
abbrev pub considered : ScalingPolicy → ScalingOrchestrator → List ℕ
considered p o =
    if p.evaluation_periods == 0
    then history p o
    else drop (length (history p o) - p.evaluation_periods) (history p o)

-- The cooldown, in microseconds, since the last scaling, if there was one.
abbrev pub IsRested : ℕ → ScalingPolicy → Option ℕ → Type 0
IsRested now p none = Unit
IsRested now p (some last) = last + p.cooldown_seconds * 1000000 ≤ now

abbrev pub IsCooling : ℕ → ScalingPolicy → Option ℕ → Type 0
IsCooling now p none = ⊥
IsCooling now p (some last) = now < last + p.cooldown_seconds * 1000000

-- One step up, for an average above the upper threshold, or one step down, for one that is below the
-- lower and not above the upper.
abbrev pub IsMove : ScalingPolicy → ℕ → ℕ → List ℕ → Type 0
IsMove p c n xs =
    ((p.scale_up_threshold * length xs < sum xs)
      × (n ≡ min (c + p.scale_up_increment) p.max_instances))
    ⊎ ((sum xs ≤ p.scale_up_threshold * length xs)
        × (sum xs < p.scale_down_threshold * length xs)
        × (n ≡ max (c - p.scale_down_increment) p.min_instances))

-- The count that is asked for.
pub record IsAsked (now c n : ℕ) (p : ScalingPolicy) (o : ScalingOrchestrator) : Type 0 where
  pub enabled : p.enabled ≡ true
  pub rested : IsRested now p (lookup p.service_name o.last_scaling_time)
  pub measured : p.evaluation_periods ≤ length (history p o)
  pub some_metric : 0 < length (considered p o)
  pub inside : (p.min_instances ≤ n) × (n ≤ p.max_instances)
  pub moved : IsMove p c n (considered p o)

-- Why nothing is done.
pub data IsSkipped (now : ℕ) (p : ScalingPolicy) (o : ScalingOrchestrator) : Type 0 where
  disabled : p.enabled ≡ false → IsSkipped now p o
  cools : IsCooling now p (lookup p.service_name o.last_scaling_time) → IsSkipped now p o
  too_few : length (history p o) < p.evaluation_periods → IsSkipped now p o
  between :
      sum (considered p o) ≤ p.scale_up_threshold * length (considered p o)
      → p.scale_down_threshold * length (considered p o) ≤ sum (considered p o)
      → IsSkipped now p o

abbrev pub IsVerdict : ℕ → ℕ → ScalingPolicy → ScalingOrchestrator → Verdict → Type 0
IsVerdict now c p o (ask n) = IsAsked now c n p o
IsVerdict now c p o skip = IsSkipped now p o
IsVerdict now c p o divide_by_zero = considered p o ≡ []

cooling-IsCooling :
    (now : ℕ) (p : ScalingPolicy) (last : Option ℕ)
    → cooling now p last ≡ true
    → IsCooling now p last
cooling-IsCooling now p none e = absurd (ground arith)
cooling-IsCooling now p (some last) e = ground arith

cooling-IsRested :
    (now : ℕ) (p : ScalingPolicy) (last : Option ℕ)
    → cooling now p last ≡ false
    → IsRested now p last
cooling-IsRested now p none e = tt
cooling-IsRested now p (some last) e = ground arith

judge-IsVerdict :
    (now c : ℕ) (p : ScalingPolicy) (o : ScalingOrchestrator) (xs : List ℕ)
    → considered p o ≡ xs
    → p.min_instances ≤ c
    → c ≤ p.max_instances
    → p.enabled ≡ true
    → IsRested now p (lookup p.service_name o.last_scaling_time)
    → p.evaluation_periods ≤ length (history p o)
    → IsVerdict now c p o (judge p c xs)
judge-IsVerdict now c p o [] seen lo hi on rests enough = seen
judge-IsVerdict now c p o (x ∷ xs) seen lo hi on rests enough =
    let metrics = x ∷ xs in
    elim (Bool-cases (ltb (p.scale_up_threshold * length metrics) (sum metrics))) [
      | inl above ↦ rw above (record {
        enabled = on;
        rested = rests;
        measured = enough;
        some_metric = rw seen (omega arith);
        inside = (omega arith, omega arith);
        moved = rw seen (inl (ltb→lt _ _ above, refl));
      })
      | inr low ↦ elim (Bool-cases (ltb (sum metrics) (p.scale_down_threshold * length metrics))) [
        | inl below ↦
            rw (low, below)
              (record {
                enabled = on;
                rested = rests;
                measured = enough;
                some_metric = rw seen (omega arith);
                inside = (omega arith, omega arith);
                moved = rw seen (inr (ground (arith, low), ltb→lt _ _ below, refl));
              })
        | inr fine ↦
            rw (low, fine)
              (between (rw seen (ground (arith, low))) (rw seen (ground (arith, fine))))
      ]
    ]

-- For a service whose count lies within the limits of the policy. If the loop asks for a count: the
-- policy is enabled, the cooldown since the last scaling is over, there are as many metrics as the
-- policy wants to see and one at least, and the count asked for is one increment up, or the maximum
-- if that is less, with the average of the newest metrics above the upper threshold, or one
-- increment down, or the minimum if that is more, with the average below the lower; it lies within
-- the limits too. If the loop does nothing: the policy is disabled, or the cooldown is not over, or
-- there are too few metrics, or the average is between the thresholds. It divides by zero only for
-- an empty list of metrics.
pub evaluate-IsVerdict :
    (now c : ℕ) (p : ScalingPolicy) (o : ScalingOrchestrator)
    → lookup p.service_name o.current_instances ≡ some c
    → p.min_instances ≤ c
    → c ≤ p.max_instances
    → IsVerdict now c p o (evaluate now p o)
unfolding evaluate
evaluate-IsVerdict now c p o known lo hi =
    let last = lookup p.service_name o.last_scaling_time in
    elim (Bool-cases p.enabled) [
      | inr off ↦ simp off (disabled off)
      | inl on ↦ elim (Bool-cases (cooling now p last)) [
        | inl waits ↦ simp (on, waits) (cools (cooling-IsCooling now p last waits))
        | inr rests ↦ elim (Bool-cases (ltb (length (history p o)) p.evaluation_periods)) [
          | inl few ↦ simp (on, rests, few) (too_few (ltb→lt _ _ few))
          | inr enough ↦
              let judged : evaluate now p o ≡ judge p c (considered p o) =
                ground (arith, on, rests, enough, known) in
              subst (IsVerdict now c p o) (sym judged) (
                judge-IsVerdict now c p o (considered p o) refl lo hi on
                  (cooling-IsRested now p last rests) (ground (arith, enough)))
        ]
      ]
    ]
