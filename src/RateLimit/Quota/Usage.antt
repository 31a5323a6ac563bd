-- ===== src/RateLimit/Quota/Usage.antt =====
-- What a client can use of its quota.
use self_optimizing_competit.Base.{
  ℕ, ◌+◌, ◌*◌, ◌≤◌, ◌<◌, ◌≡◌, refl, List, [], ◌∷◌, arith, leb, Bool-cases, inl, inr, if◌then◌else◌,
}
use self_optimizing_competit.RateLimit.Metrics.{second}
use self_optimizing_competit.RateLimit.Quota.{ClientQuota, period_seconds, consume, get_metrics}

-- Requests at `(time, amount)`, with the amounts that were granted.
unfoldable pub run : List (ℕ × ℕ) → ClientQuota → ℕ × ClientQuota
run [] q = (0, q)
run ((now, amount) ∷ rs) q =
    let (ok, q') = consume now amount q in
    let (total, q'') = run rs q' in ((if ok then amount else 0) + total, q'')

-- All the requests come before the period that is running at the start is over.
abbrev pub IsBefore : ℕ → List (ℕ × ℕ) → Type 0
IsBefore t [] = Unit
IsBefore t ((now, _) ∷ rs) = (now < t) × IsBefore t rs

-- `consume` grants an amount exactly if `get_metrics` shows that much remaining, or the period is
-- over and the amount fits the whole quota; it never uses more than the quota, and a refusal within
-- the period changes nothing.
pub consume_exact :
    (now amount : ℕ) (q : ClientQuota)
    → q.used ≤ q.config.max_usage
    → let (ok, q') = consume now amount q in
      let over = leb (q.period_start + period_seconds q * second) now in
      (ok ≡ leb amount (if over then q.config.max_usage else (get_metrics q).remaining))
      × (q'.used ≤ q'.config.max_usage)
      × (q'.used ≡ (if over then 0 else q.used) + (if ok then amount else 0))
      × (q'.period_start ≡ (if over then now else q.period_start))
      × (q'.config ≡ q.config)
unfolding consume get_metrics
consume_exact now amount q h =
    (ground arith, ground arith, ground arith, ground arith, ground arith)

-- A request before the end of the period, at `t`.
consume_early :
    (now amount t : ℕ) (q : ClientQuota)
    → q.period_start + period_seconds q * second ≡ t
    → now < t
    → q.used ≤ q.config.max_usage
    → let (ok, q') = consume now amount q in
      (q'.period_start + period_seconds q' * second ≡ t)
      × (q'.used ≡ q.used + (if ok then amount else 0))
      × (q'.used ≤ q'.config.max_usage)
      × (q'.config.max_usage ≡ q.config.max_usage)
unfolding consume
consume_early now amount t q e early h =
    elim (Bool-cases (leb (q.period_start + period_seconds q * second) now)) [
      | inl over ↦ absurd (ground arith)
      | inr inside ↦ (ground arith, ground arith, ground arith, ground arith)
    ]

run_early :
    (t : ℕ) (rs : List (ℕ × ℕ)) (q : ClientQuota)
    → q.period_start + period_seconds q * second ≡ t
    → IsBefore t rs
    → q.used ≤ q.config.max_usage
    → ((run rs q).1.used ≡ q.used + (run rs q).0) × ((run rs q).1.used ≤ q.config.max_usage)
unfolding run
run_early t [] q e b h = (omega arith, h)
run_early t ((now, amount) ∷ rs) q e (early, b) h =
    let (e', used, h', same) = consume_early now amount t q e early h in
    omega (arith, run_early t rs (consume now amount q).1 e' b h')

-- From a quota that is not overdrawn, whatever is asked before its period is over, the amounts that
-- are granted add up to no more than what remained, and are all recorded as used.
pub period_bound :
    (rs : List (ℕ × ℕ)) (q : ClientQuota)
    → IsBefore (q.period_start + period_seconds q * second) rs
    → q.used ≤ q.config.max_usage
    → ((run rs q).0 ≤ (get_metrics q).remaining) × ((run rs q).1.used ≡ q.used + (run rs q).0)
unfolding get_metrics
period_bound rs q b h = omega (arith, run_early _ rs q refl b h)
