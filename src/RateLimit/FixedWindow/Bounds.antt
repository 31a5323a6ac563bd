-- ===== src/RateLimit/FixedWindow/Bounds.antt =====
-- How many requests a fixed window can let through around a boundary.
use mathlib.Core.List.{append-nil, append_assoc}
use self_optimizing_competit.Base.{
  ℕ, ◌+◌, ◌*◌, ◌≤◌, ◌<◌, ◌≡◌, refl, Bool, true, List, [], ◌∷◌, ◌++◌, arith, leb, ltb, count, All,
  if◌then◌else◌, Bool-cases, inl, inr, count-append, count_mono, count-eq-zero, All-append, All-map,
}
use self_optimizing_competit.RateLimit.Metrics.{second, tally}
use self_optimizing_competit.RateLimit.Requests.{IsOrdered, in_window, granted_of}
use self_optimizing_competit.RateLimit.FixedWindow.{FixedWindow, init, roll, admit, acquire}

-- The limiter over a list of requests: its answers.
unfoldable pub run : List ℕ → FixedWindow → List Bool × FixedWindow
run [] w = ([], w)
run (now ∷ rs) w = let (ok, w') = acquire now w in let (oks, w'') = run rs w' in (ok ∷ oks, w'')

-- What the counter says of all the grants so far; `size` is the window's length in ticks.
record Counts (limit seconds last : ℕ) (granted : List ℕ) (w : FixedWindow) : Type 0 where
  same_limit : w.max_requests ≡ limit
  same_window : w.window_seconds ≡ seconds
  started : w.window_start ≤ last
  past : All (λ t. t ≤ last) granted
  within : All (λ t. t < w.window_start + seconds * second) granted
  counted : count (leb w.window_start) granted ≤ w.request_count
  capped : w.request_count ≤ limit
  later :
      (x : ℕ)
      → w.window_start ≤ x
      → count (in_window (seconds * second) x) granted ≤ limit + w.request_count
  every : (x : ℕ) → count (in_window (seconds * second) x) granted ≤ limit + limit

module _ (limit seconds last now : ℕ) (granted : List ℕ) (w : FixedWindow) where
  roll-Counts :
      0 < seconds
      → last ≤ now
      → Counts limit seconds last granted w
      → Counts limit seconds now granted (roll now w)
        × (now < (roll now w).window_start + seconds * second)
  unfolding roll
  roll-Counts some_window le h =
      let past : All (λ t. t ≤ now) granted = All-map (λ t k. omega arith) granted h.past in
      elim (Bool-cases (leb (w.window_start + w.window_seconds * second) now)) [
        | inl over ↦
            rw (over, roll)
              (
                let gone : w.window_start + seconds * second ≤ now = ground arith in
                    record {
                      same_limit = h.same_limit;
                      same_window = h.same_window;
                      started = omega arith;
                      past = past;
                      within = All-map (λ t k. omega arith) granted past;
                      counted =
                          rw
                            (count-eq-zero (leb now) granted
                              (All-map (λ t k. ground arith) granted h.within))
                            (omega arith);
                      capped = omega arith;
                      later = λ x k. omega (
                        arith,
                        count_mono (in_window (seconds * second) x) (leb w.window_start)
                            (λ t e. ground arith) granted,
                      );
                      every = h.every;
                    },
                omega arith,
              )
        | inr inside ↦
            rw (inside, roll)
              (
                record {
                  same_limit = h.same_limit;
                  same_window = h.same_window;
                  started = omega arith;
                  past = past;
                  within = h.within;
                  counted = h.counted;
                  capped = h.capped;
                  later = h.later;
                  every = h.every;
                },
                ground arith,
              )
      ]

  -- A grant inside the current window, with the counter below the limit.
  grant-Counts :
      Counts limit seconds now granted w
      → now < w.window_start + seconds * second
      → ltb w.request_count w.max_requests ≡ true
      → Counts limit seconds now
          (granted ++ (now ∷ []))
          (record w { request_count = w.request_count + 1; metrics = tally true w.metrics })
  grant-Counts h inside room =
      let one = λ (p : ℕ → Bool). count-append p granted (now ∷ []) in
      record {
        same_limit = h.same_limit;
        same_window = h.same_window;
        started = h.started;
        past = All-append (λ t. t ≤ now) granted (now ∷ []) h.past (omega arith, tt);
        within =
            All-append (λ t. t < w.window_start + seconds * second) granted (now ∷ []) h.within
              (inside, tt);
        counted = ground (arith, one (leb w.window_start), h.counted);
        capped = ground arith;
        later = λ x k. ground (arith, one (in_window (seconds * second) x), h.later x k);
        every = λ x.
            ground (arith, one (in_window (seconds * second) x), h.later x, h.every x, h.started);
      }

  admit-Counts :
      Counts limit seconds now granted w
      → now < w.window_start + seconds * second
      → Counts limit seconds now
          (if (admit w).0 then granted ++ (now ∷ []) else granted)
          (admit w).1
  unfolding admit
  admit-Counts h inside = elim (Bool-cases (ltb w.request_count w.max_requests)) [
    | inl room ↦ rw (room, admit) (grant-Counts h inside room)
    | inr full ↦
        rw (full, admit)
          (record {
            same_limit = h.same_limit;
            same_window = h.same_window;
            started = h.started;
            past = h.past;
            within = h.within;
            counted = h.counted;
            capped = h.capped;
            later = h.later;
            every = h.every;
          })
  ]

run-Counts :
    (limit seconds last x : ℕ) (granted rs : List ℕ) (w : FixedWindow)
    → 0 < seconds
    → Counts limit seconds last granted w
    → IsOrdered last rs
    → count (in_window (seconds * second) x) (granted ++ granted_of rs (run rs w).0) ≤ limit + limit
unfolding run acquire
run-Counts limit seconds last x granted [] w some_window h o = rw append-nil (h.every x)
run-Counts limit seconds last x granted (now ∷ rs) w some_window h (le, o) =
    let (rolled, inside) = roll-Counts limit seconds last now granted w some_window le h in
    let h' = admit-Counts limit seconds now now granted (roll now w) rolled inside in
    let ih =
      run-Counts limit seconds now x (if (acquire now w).0 then granted ++ (now ∷ []) else granted)
        rs (acquire now w).1 some_window h' o in
    elim (Bool-cases (acquire now w).0) [
      | inl ok ↦ rw ok (rw (← append_assoc granted (now ∷ []) _) (rw ok at ih))
      | inr no_ok ↦ rw no_ok (rw no_ok at ih)
    ]

-- However the requests fall, no stretch of time of the window's length holds more grants than twice
-- the limit: the counter starts again at a boundary, so one limit can be spent on each side of it.
-- The window is not empty and the clock is never set back.
pub window_bound_twice :
    (limit seconds start x : ℕ) (rs : List ℕ)
    → 0 < seconds
    → IsOrdered start rs
    → count (in_window (seconds * second) x) (granted_of rs (run rs (init limit seconds start)).0)
      ≤ limit + limit
unfolding init
window_bound_twice limit seconds start x rs some_window o =
    run-Counts limit seconds start x [] rs (init limit seconds start) some_window
      (record {
        same_limit = refl;
        same_window = refl;
        started = omega arith;
        past = tt;
        within = tt;
        counted = omega arith;
        capped = omega arith;
        later = λ y k. omega arith;
        every = λ y. omega arith;
      })
      o
