-- ===== src/Policies/Learning.antt =====
-- How the score of a policy follows its feedback.
use self_optimizing_competit.Base.{
  ℕ, ◌+◌, ◌-◌, ◌≤◌, ◌≡◌, refl, max, min, Bool, true, false, ◌||◌, Option, some, List, [], ◌∷◌,
  ◌>>=◌, length, arith, leb, le→leb, if◌then◌else◌,
}
use self_optimizing_competit.Base.Dict.{key_eq}
use self_optimizing_competit.Policies.{AgentPolicy, make, learned_score, record_usage}

-- Feedback with its times
abbrev pub record_all : List (ℕ × Bool) → AgentPolicy → Option AgentPolicy
record_all [] p = some p
record_all ((now, successful) ∷ fs) p = record_usage now successful p >>= record_all fs

-- What the constructor asks of a policy
abbrev pub IsPolicy : AgentPolicy → Type 0
IsPolicy p =
    ((key_eq p.agent_id "" || key_eq p.agent_type "") ≡ false) × (p.effectiveness_score ≤ 100)

abbrev pub scored : List (ℕ × Bool) → ℕ → ℕ
scored [] score = score
scored ((now, successful) ∷ fs) score = scored fs (learned_score successful score)

learned_le : (b : Bool) (n : ℕ) → n ≤ 100 → learned_score b n ≤ 100
learned_le true n h = omega arith
learned_le false n h = omega arith

abbrev IsAfter : List (ℕ × Bool) → AgentPolicy → AgentPolicy → Type 0
IsAfter fs p q =
    (q.effectiveness_score ≡ scored fs p.effectiveness_score)
    × (q.usage_count ≡ p.usage_count + length fs)
    × (q.feedback_count ≡ p.feedback_count + length fs)
    × (q.status ≡ p.status)

record_all_lem :
    (fs : List (ℕ × Bool)) (p : AgentPolicy)
    → IsPolicy p
    → (q : AgentPolicy) × (record_all fs p ≡ some q) × IsAfter fs p q
unfolding record_usage make
record_all_lem [] p h = (p, refl, (refl, omega arith, omega arith, refl))
record_all_lem ((now, b) ∷ fs) p (named, fits) =
    let p' : AgentPolicy = record p {
      effectiveness_score = learned_score b p.effectiveness_score;
      usage_count = p.usage_count + 1;
      feedback_count = p.feedback_count + 1;
      last_successful = if b then some now else p.last_successful;
      last_failed = if b then p.last_failed else some now;
      updated_at = now;
    } in
    let fits' : leb (learned_score b p.effectiveness_score) 100 ≡ true =
      le→leb _ 100 (learned_le b p.effectiveness_score fits) in
    let (q, done, (score, used, fed, status)) =
      record_all_lem fs p' (named, learned_le b p.effectiveness_score fits) in
    (q, rw (named, fits') done, (score, omega arith, omega arith, status))

-- No feedback lifts a score above 91, unless it is there.
learned_ceiling : (b : Bool) (n : ℕ) → learned_score b n ≤ max n 91
learned_ceiling true n = omega arith
learned_ceiling false n = omega arith

scored_ceiling : (fs : List (ℕ × Bool)) (n : ℕ) → scored fs n ≤ max n 91
scored_ceiling [] n = omega arith
scored_ceiling ((now, b) ∷ fs) n =
    let first = learned_ceiling b n in
    let rest = scored_ceiling fs (learned_score b n) in omega arith

-- Feedback that is all of one kind, at these times
abbrev pub all_of : Bool → List ℕ → List (ℕ × Bool)
all_of b [] = []
all_of b (now ∷ times) = (now, b) ∷ all_of b times

scored_up : (times : List ℕ) (n : ℕ) → min 91 (n + length times) ≤ scored (all_of true times) n
scored_up [] n = omega arith
scored_up (now ∷ times) n =
    let rest = scored_up times (learned_score true n) in
    let first : min 91 (n + 1) ≤ learned_score true n = omega arith in omega arith

scored_down : (times : List ℕ) (n : ℕ) → scored (all_of false times) n ≤ n - length times
scored_down [] n = omega arith
scored_down (now ∷ times) n =
    let rest = scored_down times (learned_score false n) in
    let first : learned_score false n ≤ n - 1 = omega arith in omega arith

-- A policy with an agent and a score of at most 100 takes any feedback without an exception, counts
-- it as usage and as feedback, and keeps its status; its score never rises above 91, or above where
-- it began if that is more. After feedback of successes only, the score is 91 or more, or has risen
-- by a point for each at least; after failures only it has fallen by a point for each at least, or
-- to 0.
pub record_all_bounds :
    (fs : List (ℕ × Bool)) (times : List ℕ) (p : AgentPolicy)
    → IsPolicy p
    → ((q : AgentPolicy) × (record_all fs p ≡ some q)
        × (q.usage_count ≡ p.usage_count + length fs)
        × (q.feedback_count ≡ p.feedback_count + length fs)
        × (q.status ≡ p.status)
        × (q.effectiveness_score ≤ max p.effectiveness_score 91))
      × ((up : AgentPolicy) × (record_all (all_of true times) p ≡ some up)
          × (min 91 (p.effectiveness_score + length times) ≤ up.effectiveness_score))
      × ((down : AgentPolicy) × (record_all (all_of false times) p ≡ some down)
          × (down.effectiveness_score ≤ p.effectiveness_score - length times))
record_all_bounds fs times p h =
    let (q, done, (score, used, fed, status)) = record_all_lem fs p h in
    let (up, up_done, up_after) = record_all_lem (all_of true times) p h in
    let (down, down_done, down_after) = record_all_lem (all_of false times) p h in
    (
      (q, done, used, fed, status, rw score (scored_ceiling fs p.effectiveness_score)),
      (up, up_done, rw up_after.0 (scored_up times p.effectiveness_score)),
      (down, down_done, rw down_after.0 (scored_down times p.effectiveness_score)),
    )
