-- ===== src/Resilience/Breaker/Window.antt =====
-- The rolling window of results.
use mathlib.Core.List.{append-nil, append_assoc}
use self_optimizing_competit.Base.{
  ℕ, zero, suc, ◌-◌, ◌≤◌, ◌≡◌, refl, sym, ap, ◌∙◌, Bool, true, false, List, [], ◌∷◌, ◌++◌, arith,
  ltb, length, drop, Bool-cases, inl, inr, if◌then◌else◌, length-append,
}
use self_optimizing_competit.Resilience.Breaker.{
  CircuitBreaker, note_success, note_failure, push_history,
}

drop-append {ℓ} :
    {A : Type ℓ} (n : ℕ) (xs ys : List A) → n ≤ length xs → drop n (xs ++ ys) ≡ drop n xs ++ ys
drop-append zero xs ys h = refl
drop-append (suc n) [] ys h = absurd (omega arith)
drop-append (suc n) (x ∷ xs) ys h = drop-append n xs ys (omega arith)

drop-drop_one {ℓ} : {A : Type ℓ} (n : ℕ) (xs : List A) → drop 1 (drop n xs) ≡ drop (suc n) xs
drop-drop_one zero [] = refl
drop-drop_one zero (x ∷ xs) = refl
drop-drop_one (suc n) [] = refl
drop-drop_one (suc n) (x ∷ xs) = drop-drop_one n xs

length-drop {ℓ} : {A : Type ℓ} (n : ℕ) (xs : List A) → length (drop n xs) ≡ length xs - n
length-drop zero xs = omega arith
length-drop (suc n) [] = omega arith
length-drop (suc n) (x ∷ xs) = omega (arith, length-drop n xs)

-- The last `w` of a list.
abbrev pub newest : ℕ → List Bool → List Bool
newest w xs = drop (length xs - w) xs

trim : ℕ → List Bool → List Bool
trim w xs = if ltb w (length xs) then drop 1 xs else xs

trim-drop :
    (w n : ℕ) (xs : List Bool)
    → n ≡ length xs - 1 - w
    → trim w (drop n xs) ≡ drop (length xs - w) xs
unfolding trim
trim-drop w n xs e = elim (Bool-cases (ltb w (length (drop n xs)))) [
  | inl long ↦
      rw long
        (drop-drop_one n xs ∙ ap (λ k. drop k xs) {x = suc n} (ground (arith, length-drop n xs)))
  | inr short ↦ rw short (ap (λ k. drop k xs) (ground (arith, length-drop n xs)))
]

newest-snoc :
    (w : ℕ) (x : Bool) (xs : List Bool)
    → trim w (newest w xs ++ (x ∷ [])) ≡ newest w (xs ++ (x ∷ []))
newest-snoc w x xs =
    let n = length xs - w in
    ap (trim w) (sym (drop-append n xs (x ∷ []) (omega arith)))
    ∙ trim-drop w n (xs ++ (x ∷ [])) (omega (arith, length-append xs (x ∷ [])))

-- The results of calls that end one after another, on a breaker that stays closed.
unfoldable pub note_all : ℕ → List Bool → CircuitBreaker → CircuitBreaker
note_all now [] b = b
note_all now (true ∷ rs) b = note_all now rs (note_success b)
note_all now (false ∷ rs) b = note_all now rs (note_failure now b)

push_history-newest :
    (x : Bool) (past : List Bool) (b : CircuitBreaker)
    → b.call_history ≡ newest b.config.window_size past
    → push_history x b ≡ newest b.config.window_size (past ++ (x ∷ []))
unfolding trim
push_history-newest x past b h = rw h (newest-snoc b.config.window_size x past)

-- The history is a window over everything that was recorded: with the newest `window_size` of the
-- past results in it, it holds the newest `window_size` of all results after any more calls.
pub call_history_newest :
    (now : ℕ) (past rs : List Bool) (b : CircuitBreaker)
    → b.call_history ≡ newest b.config.window_size past
    → (note_all now rs b).call_history ≡ newest b.config.window_size (past ++ rs)
unfolding note_all note_success note_failure
call_history_newest now past [] b h = rw append-nil h
call_history_newest now past (true ∷ rs) b h =
    call_history_newest now (past ++ (true ∷ [])) rs (note_success b)
      (push_history-newest true past b h)
    ∙ ap (newest b.config.window_size) (append_assoc past (true ∷ []) rs)
call_history_newest now past (false ∷ rs) b h =
    call_history_newest now (past ++ (false ∷ [])) rs (note_failure now b)
      (push_history-newest false past b h)
    ∙ ap (newest b.config.window_size) (append_assoc past (false ∷ []) rs)
