-- ===== src/Values/Confidence.antt =====
-- `Confidence` of core/domain/value_objects/confidence.py. A score that is not from 0 to 100 is refused
-- by an exception, here `none`; scores below 0 are left out. What `int(score * factor)` gives is an
-- argument. Equality and order look at the score and the level only.
use self_optimizing_competit.Base.{
  ℕ, ◌+◌, ◌/◌, ◌≤◌, ◌≡◌, refl, max, min, Bool, true, false, ◌&&◌, ◌||◌, Option, none, some, String,
  arith, leb, if◌then◌else◌, Bool-cases, inl, inr,
}

pub data ConfidenceLevel : Type 0 where
  critical high medium low unknown : ConfidenceLevel

pub record Confidence : Type 0 where
  pub level : ConfidenceLevel
  pub score : ℕ
  pub explanation : Option String

-- The constructor with its check
unfoldable pub make : ConfidenceLevel → ℕ → Option String → Option Confidence
make level score explanation =
    if leb score 100
    then some (record { level = level; score = score; explanation = explanation })
    else none

abbrev pub level_of : ℕ → ConfidenceLevel
level_of score =
    if leb 80 score
    then ConfidenceLevel.critical
    else if leb 60 score
    then ConfidenceLevel.high
    else if leb 40 score
    then ConfidenceLevel.medium
    else if leb 20 score
    then ConfidenceLevel.low
    else ConfidenceLevel.unknown

unfoldable pub from_score : ℕ → Option String → Option Confidence
from_score score explanation = make (level_of score) score explanation

abbrev pub score_of : ConfidenceLevel → ℕ
score_of ConfidenceLevel.critical = 90
score_of ConfidenceLevel.high = 75
score_of ConfidenceLevel.medium = 50
score_of ConfidenceLevel.low = 25
score_of ConfidenceLevel.unknown = 0

unfoldable pub from_level : ConfidenceLevel → Option String → Option Confidence
from_level level explanation = make level (score_of level) explanation

abbrev pub is_high : Confidence → Bool
is_high c = elim c.level [
  | critical ↦ true
  | high ↦ true
  | medium ↦ false
  | low ↦ false
  | unknown ↦ false
]

abbrev pub is_low : Confidence → Bool
is_low c = elim c.level [
  | critical ↦ false
  | high ↦ false
  | medium ↦ false
  | low ↦ true
  | unknown ↦ true
]

-- With `reduced` for `int(score * 0.7)`
abbrev pub combined_score : (ℕ → ℕ) → Confidence → Confidence → ℕ
combined_score reduced c d =
    let mean = (c.score + d.score) / 2 in
    if is_high c && is_high d
    then max c.score d.score
    else if is_low c || is_low d
    then reduced mean
    else mean

unfoldable pub combine : (ℕ → ℕ) → Confidence → Confidence → Option Confidence
combine reduced c d = from_score (combined_score reduced c d) none

unfoldable pub boost : (ℕ → ℕ) → ℕ → Confidence → Option Confidence
boost scaled max_score c = from_score (min (scaled c.score) max_score) c.explanation

unfoldable pub reduce : (ℕ → ℕ) → ℕ → Confidence → Option Confidence
reduce scaled min_score c = from_score (max (scaled c.score) min_score) c.explanation

-- The level is the one of the score, as `from_score` makes it.
abbrev pub IsConsistent : Confidence → Type 0
IsConsistent c = (c.score ≤ 100) × (c.level ≡ level_of c.score)

from_score-IsConsistent :
    (score : ℕ) (e : Option String)
    → score ≤ 100
    → (c : Confidence) × (from_score score e ≡ some c) × IsConsistent c × (c.score ≡ score)
unfolding from_score make
from_score-IsConsistent score e h =
    let c : Confidence = record { level = level_of score; score = score; explanation = e } in
    let fits : leb score 100 ≡ true = ground arith in (c, rw fits refl, (h, refl), refl)

combined_le :
    (reduced : ℕ → ℕ) (c d : Confidence)
    → ((n : ℕ) → reduced n ≤ n)
    → combined_score reduced c d ≤ max c.score d.score
combined_le reduced c d shrinks =
    let mean = (c.score + d.score) / 2 in
    let middle : mean ≤ max c.score d.score = omega arith in
    let less = shrinks mean in
    elim (Bool-cases (is_high c && is_high d)) [
      | inl both ↦ rw both (omega arith)
      | inr not_both ↦ elim (Bool-cases (is_low c || is_low d)) [
        | inl one ↦ rw (not_both, one) (omega arith)
        | inr none_low ↦ rw (not_both, none_low) middle
      ]
    ]

-- Two confidences, of scores up to 100 and of any levels, combine to one with the level of its score
-- and a score of at most the greater of theirs, as long as the reduction makes no score greater.
combine-IsConsistent :
    (reduced : ℕ → ℕ) (c d : Confidence)
    → ((n : ℕ) → reduced n ≤ n)
    → c.score ≤ 100
    → d.score ≤ 100
    → (r : Confidence) × (combine reduced c d ≡ some r)
      × IsConsistent r
      × (r.score ≤ max c.score d.score)
unfolding combine
combine-IsConsistent reduced c d shrinks hc hd =
    let most = combined_le reduced c d shrinks in
    let (r, made, good, same) =
      from_score-IsConsistent (combined_score reduced c d) none (omega arith) in
    (r, made, good, rw same most)

-- The score of a level has that level.
level_of-score_of : (l : ConfidenceLevel) → level_of (score_of l) ≡ l
level_of-score_of critical = refl
level_of-score_of high = refl
level_of-score_of medium = refl
level_of-score_of low = refl
level_of-score_of unknown = refl
