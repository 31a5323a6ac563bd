-- ===== src/RateLimit/Requests.antt =====
-- Sequences of requests to a limiter that counts them in a window of time.
use self_optimizing_competit.Base.{
  ℕ, ◌+◌, ◌≤◌, Bool, true, false, List, [], ◌∷◌, arith, ltb, leb, count, All, ◌&&◌,
}

-- The clock is never set back.
abbrev pub IsOrdered : ℕ → List ℕ → Type 0
IsOrdered t [] = Unit
IsOrdered t (now ∷ rs) = (t ≤ now) × IsOrdered now rs

-- The window of `size` ticks that ends at `x` holds `t`.
abbrev pub in_window : ℕ → ℕ → ℕ → Bool
in_window size x t = leb t x && ltb x (t + size)

-- The requests that were answered yes.
abbrev pub granted_of : List ℕ → List Bool → List ℕ
granted_of (t ∷ ts) (true ∷ oks) = t ∷ granted_of ts oks
granted_of (t ∷ ts) (false ∷ oks) = granted_of ts oks
granted_of _ _ = []

pub count-in_window-le :
    (size x now : ℕ) (ts : List ℕ)
    → now ≤ x
    → All (λ t. t ≤ now) ts
    → count (in_window size x) ts ≤ count (in_window size now) ts
count-in_window-le size x now [] le h = omega arith
count-in_window-le size x now (t ∷ ts) le h =
    ground (arith, count-in_window-le size x now ts le h.1)
