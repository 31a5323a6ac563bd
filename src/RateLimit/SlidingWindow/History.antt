-- ===== src/RateLimit/SlidingWindow/History.antt =====
-- The sliding window against a specification that forgets nothing: the list of all grants.
use self_optimizing_competit.Base.{
  ℕ, ◌+◌, ◌*◌, ◌≤◌, ◌<◌, ◌≡◌, refl, ◌∙◌, Bool, true, false, List, [], ◌∷◌, ◌++◌, arith, ltb, length,
  keep, count, All, if◌then◌else◌, Bool-cases, inl, inr, length-keep, keep-append, keep-keep,
  count-append, All-append, All-map,
}
use mathlib.Core.List.{append-nil, append_assoc}
use self_optimizing_competit.RateLimit.Metrics.{second, tally}
use self_optimizing_competit.RateLimit.Requests.{
  IsOrdered, in_window, granted_of, count-in_window-le,
}
use self_optimizing_competit.RateLimit.SlidingWindow.{SlidingWindow, is_live, acquire, init}

-- The specification: a request is granted if fewer than `limit` grants stand in the window that
-- ends with it.
pub decide_all : ℕ → ℕ → List ℕ → List ℕ → List Bool
decide_all limit size granted [] = []
decide_all limit size granted (now ∷ rs) =
    let ok = ltb (count (in_window size now) granted) limit in
    ok ∷ decide_all limit size (if ok then granted ++ (now ∷ []) else granted) rs

-- The limiter over the same requests: its answers, and the times at which it granted one.
unfoldable pub run : List ℕ → SlidingWindow → List Bool × SlidingWindow
run [] w = ([], w)
run (now ∷ rs) w = let (ok, w') = acquire now w in let (oks, w'') = run rs w' in (ok ∷ oks, w'')

-- The limiter keeps those of the grants that were live at its last request, at time `last`.
record Tracks (limit seconds last : ℕ) (granted : List ℕ) (w : SlidingWindow) : Type 0 where
  same_limit : w.max_requests ≡ limit
  same_window : w.window_seconds ≡ seconds
  past : All (λ t. t ≤ last) granted
  live : w.request_times ≡ keep (λ t. ltb last (t + seconds * second)) granted

-- Among past grants, being live is being in the window.
live-in_window :
    (seconds now : ℕ) (ts : List ℕ)
    → All (λ t. t ≤ now) ts
    → count (λ t. ltb now (t + seconds * second)) ts ≡ count (in_window (seconds * second) now) ts
live-in_window seconds now [] h = refl
live-in_window seconds now (t ∷ ts) h = ground (arith, live-in_window seconds now ts h.1)

-- What `acquire` sees is the live part of all the grants.
live-Tracks :
    (limit seconds last now : ℕ) (granted : List ℕ) (w : SlidingWindow)
    → Tracks limit seconds last granted w
    → last ≤ now
    → keep (is_live w now) w.request_times ≡ keep (λ t. ltb now (t + seconds * second)) granted
live-Tracks limit seconds last now granted w h le =
    rw (h.live, h.same_window)
      (keep-keep (λ t. ltb now (t + seconds * second)) (λ t. ltb last (t + seconds * second))
        (λ t e. ground arith) granted)

-- The answer that the specification gives at `now`.
abbrev spec_ok : ℕ → ℕ → ℕ → List ℕ → Bool
spec_ok limit seconds now granted = ltb (count (in_window (seconds * second) now) granted) limit

module _ (limit seconds last now : ℕ) (granted : List ℕ) (w : SlidingWindow) where
  -- With the live grants counted, `acquire` has two outcomes.
  acquire_cases :
      (live : List ℕ)
      → keep (is_live w now) w.request_times ≡ live
      → length live ≡ count (in_window (seconds * second) now) granted
      → w.max_requests ≡ limit
      → acquire now w ≡ (
          if spec_ok limit seconds now granted
          then (
            true,
            record w { request_times = live ++ (now ∷ []); metrics = tally true w.metrics },
          )
          else (false, record w { request_times = live; metrics = tally false w.metrics }))
  unfolding acquire
  acquire_cases live e size limited = rw (e, size, limited) refl

  acquire-Tracks :
      0 < seconds
      → Tracks limit seconds last granted w
      → last ≤ now
      → ((acquire now w).0 ≡ spec_ok limit seconds now granted)
        × Tracks limit seconds now
            (if spec_ok limit seconds now granted then granted ++ (now ∷ []) else granted)
            (acquire now w).1
  acquire-Tracks some_window h le =
      let past : All (λ t. t ≤ now) granted = All-map (λ t k. omega arith) granted h.past in
      let seen = live-Tracks limit seconds last now granted w h le in
      let size =
        length-keep (λ t. ltb now (t + seconds * second)) granted
        ∙ live-in_window seconds now granted past in
      let appended = keep-append (λ t. ltb now (t + seconds * second)) granted (now ∷ []) in
      let both = All-append (λ t. t ≤ now) granted (now ∷ []) past (omega arith, tt) in
      rw (acquire_cases _ seen size h.same_limit)
        (elim (Bool-cases (spec_ok limit seconds now granted)) [
          | inl yes_ok ↦ rw yes_ok (
            refl,
            record {
              same_limit = h.same_limit;
              same_window = h.same_window;
              past = both;
              live = ground arith;
            },
          )
          | inr no_ok ↦ rw no_ok (
            refl,
            record {
              same_limit = h.same_limit;
              same_window = h.same_window;
              past = past;
              live = refl;
            },
          )
        ])

run-Tracks :
    (limit seconds last : ℕ) (granted rs : List ℕ) (w : SlidingWindow)
    → 0 < seconds
    → Tracks limit seconds last granted w
    → IsOrdered last rs
    → (run rs w).0 ≡ decide_all limit (seconds * second) granted rs
unfolding run decide_all
run-Tracks limit seconds last granted [] w some_window h o = refl
run-Tracks limit seconds last granted (now ∷ rs) w some_window h (le, o) =
    let (e, h') = acquire-Tracks limit seconds last now granted w some_window h le in
    let rest =
      run-Tracks limit seconds now
        (if spec_ok limit seconds now granted then granted ++ (now ∷ []) else granted) rs
        (acquire now w).1 some_window h' o in
    cc (e, rest)

-- The limiter drops what has left the window, and still answers every request as the specification
-- does, which keeps all grants: yes exactly if fewer than the limit stand in the window that ends
-- with the request. The window is not empty and the clock is never set back.
pub run-decide_all :
    (limit seconds start : ℕ) (rs : List ℕ)
    → 0 < seconds
    → IsOrdered start rs
    → (run rs (init limit seconds)).0 ≡ decide_all limit (seconds * second) [] rs
unfolding init
run-decide_all limit seconds start rs some_window o =
    run-Tracks limit seconds start [] rs (init limit seconds) some_window
      (record { same_limit = refl; same_window = refl; past = tt; live = refl }) o

-- One more grant, with room in the window that ends with it, fills no window past the limit.
grant_bound :
    (limit size x now : ℕ) (ts : List ℕ)
    → All (λ t. t ≤ now) ts
    → count (in_window size now) ts < limit
    → count (in_window size x) ts ≤ limit
    → count (in_window size x) (ts ++ (now ∷ [])) ≤ limit
grant_bound limit size x now ts past room before =
    ground (arith, count-append (in_window size x) ts (now ∷ []), count-in_window-le size x now ts)

decide_all_bound :
    (limit size x last : ℕ) (granted rs : List ℕ)
    → All (λ t. t ≤ last) granted
    → IsOrdered last rs
    → count (in_window size x) granted ≤ limit
    → count (in_window size x) (granted ++ granted_of rs (decide_all limit size granted rs)) ≤ limit
unfolding decide_all
decide_all_bound limit size x last granted [] past o h = rw append-nil h
decide_all_bound limit size x last granted (now ∷ rs) past (le, o) h =
    let past' : All (λ t. t ≤ now) granted = All-map (λ t k. omega arith) granted past in
    elim (Bool-cases (ltb (count (in_window size now) granted) limit)) [
      | inl room ↦
          rw (room, decide_all)
            (rw (← append_assoc granted (now ∷ []) _) (
              decide_all_bound limit size x now (granted ++ (now ∷ [])) rs
                (All-append (λ t. t ≤ now) granted (now ∷ []) past' (omega arith, tt)) o
                (grant_bound limit size x now granted past' (ground arith) h)))
      | inr none_left ↦
          rw (none_left, decide_all) (decide_all_bound limit size x now granted rs past' o h)
    ]

-- However the requests fall, no window of the configured length, wherever it ends, holds more
-- grants than the limit. The window is not empty and the clock is never set back.
pub window_bound :
    (limit seconds start x : ℕ) (rs : List ℕ)
    → 0 < seconds
    → IsOrdered start rs
    → count (in_window (seconds * second) x) (granted_of rs (run rs (init limit seconds)).0) ≤ limit
window_bound limit seconds start x rs some_window o =
    rw (run-decide_all limit seconds start rs some_window o)
      (decide_all_bound limit (seconds * second) x start [] rs tt o (omega arith))
