-- ===== src/Balancing/Selection/Mean.antt =====
-- The running mean of the response times.
use native.Mathlib.Nat.{mul-zero, mul_assoc, add-mul, mul-add}
use self_optimizing_competit.Base.{
  ℕ, suc, ◌+◌, ◌-◌, ◌*◌, ◌<◌, ◌≡◌, ap, ◌∙◌, Bool, not, List, [], ◌∷◌, arith, length, count,
}
use self_optimizing_competit.Balancing.Registry.{ServiceInstance}
use self_optimizing_competit.Balancing.Selection.{count_request, total}

-- The requests of an instance, newest first: whether each succeeded, and its time.
abbrev pub after : List (Bool × ℕ) → ServiceInstance → ServiceInstance
after [] i = i
after ((success, time) ∷ rs) i = count_request success time (after rs i)

abbrev pub times : List (Bool × ℕ) → List ℕ
times [] = []
times ((success, time) ∷ rs) = time ∷ times rs

abbrev pub failed : List (Bool × ℕ) → ℕ
failed = count (λ p. not p.0)

-- The mean over `n` requests is `sum / over`, and the times add up to `all`.
abbrev IsMean : ℕ → ℕ × ℕ → ℕ → Type 0
IsMean n (sum, over) all = sum * n ≡ all * over

mean_step :
    (sum over n all time : ℕ)
    → sum * n ≡ all * over
    → (sum * n + time * over) * (n + 1) ≡ (time + all) * (over * (n + 1))
mean_step sum over n all time h =
    let distributed : all * over + time * over ≡ (time + all) * over = rw add-mul (omega arith) in
    rw h (ap (λ k. k * (n + 1)) distributed ∙ mul_assoc (time + all) over (n + 1))

mul_positive : (a n : ℕ) → 0 < a → 0 < a * (n + 1)
mul_positive a n h = rw mul-add (omega arith)

-- From an instance without requests, after any requests: they are all counted, the failed ones
-- too, and the stored average is the mean of the response times: a fraction with a positive
-- denominator that gives their sum, times the number of requests.
pub avg_response_time-Mean :
    (rs : List (Bool × ℕ)) (i : ServiceInstance)
    → i.request_count ≡ 0
    → i.errors ≡ 0
    → i.avg_response_time ≡ (0, 1)
    → let j = after rs i in
      (j.request_count ≡ length rs)
      × (j.errors ≡ failed rs)
      × (0 < j.avg_response_time.1)
      × (j.avg_response_time.0 * length rs ≡ total (times rs) * j.avg_response_time.1)
unfolding count_request
avg_response_time-Mean [] i n e a = (n, e, rw a (omega arith), rw mul-zero (omega arith))
avg_response_time-Mean ((success, time) ∷ rs) i n e a =
    let (counted, errors, positive, mean) = avg_response_time-Mean rs i n e a in
    let (sum, over) = (after rs i).avg_response_time in
    let exact : (after rs i).request_count + 1 - 1 ≡ length rs = omega arith in
    let one_more : suc (length rs) ≡ length rs + 1 = omega arith in
    (
      omega arith,
      ground arith,
      mul_positive over (after rs i).request_count positive,
      rw (exact, counted, one_more) (mean_step sum over (length rs) (total (times rs)) time mean),
    )
