-- ===== src/Secrets/Masking.antt =====
-- `DataMaskingService` of core/infrastructure/security/encryption.py. A text is the list of its code
-- points.
use self_optimizing_competit.Base.{
  ℕ, zero, suc, ◌-◌, ◌<◌, ◌≡◌, refl, Bool, true, false, none, some, String, List, [], ◌∷◌, ◌++◌,
  arith, length, drop, get_elem?, leb, ◌==◌, if◌then◌else◌,
}
use self_optimizing_competit.Base.Dict.{Dict, lookup, insert}

abbrev pub star : ℕ
star = 42

abbrev at_sign : ℕ
at_sign = 64

abbrev pub stars : ℕ → List ℕ
stars zero = []
stars (suc n) = star ∷ stars n

abbrev pub take : ℕ → List ℕ → List ℕ
take zero xs = []
take (suc n) [] = []
take (suc n) (x ∷ xs) = x ∷ take n xs

-- `xs[-n:]` of a text that is longer
abbrev pub last : ℕ → List ℕ → List ℕ
last n xs = drop (length xs - n) xs

abbrev pub has_at : List ℕ → Bool
has_at [] = false
has_at (x ∷ xs) = if x == at_sign then true else has_at xs

-- What stands before the first `@`, and behind it.
abbrev pub before_at : List ℕ → List ℕ
before_at [] = []
before_at (x ∷ xs) = let rest = before_at xs in if x == at_sign then [] else x ∷ rest

abbrev pub behind_at : List ℕ → List ℕ
behind_at [] = []
behind_at (x ∷ xs) = if x == at_sign then xs else behind_at xs

abbrev pub mask_local : List ℕ → List ℕ
mask_local part =
    if leb (length part) 2
    then stars (length part)
    else take 1 part ++ stars (length part - 2) ++ last 1 part

-- What follows a second `@` is dropped.
unfoldable pub mask_email : List ℕ → List ℕ
mask_email email =
    if has_at email
    then mask_local (before_at email) ++ at_sign ∷ before_at (behind_at email)
    else stars 3

unfoldable pub mask_token : ℕ → List ℕ → List ℕ
mask_token visible_chars token =
    if leb (length token) visible_chars
    then stars (length token)
    else take visible_chars token ++ stars (length token - visible_chars)

abbrev pub mask_end : List ℕ → List ℕ
mask_end t = if leb (length t) 4 then stars (length t) else stars (length t - 4) ++ last 4 t

unfoldable pub mask_phone : List ℕ → List ℕ
mask_phone phone = mask_end phone

unfoldable pub mask_credit_card : List ℕ → List ℕ
mask_credit_card card = mask_end card

pub data Field (Other : Type 0) : Type 0 where
  text : List ℕ → Field Other
  other : Other → Field Other

module _ {Other : Type 0} where
  abbrev pub mask_field : Field Other → List ℕ
  mask_field (text t) = if has_at t then mask_email t else mask_token 4 t
  mask_field (other x) = stars 3

  unfoldable pub mask_dict : Dict (Field Other) → List String → Dict (Field Other)
  mask_dict d [] = d
  mask_dict d (field ∷ fields) = elim (lookup field d) [
    | none ↦ mask_dict d fields
    | some value ↦ mask_dict (insert field (text (mask_field value)) d) fields
  ]

take_alike :
    (n : ℕ) (s t : List ℕ) → ((i : ℕ) → i < n → get_elem? s i ≡ get_elem? t i) → take n s ≡ take n t
take_alike zero s t h = refl
take_alike (suc n) [] [] h = refl
take_alike (suc n) [] (y ∷ t) h = absurd (ground (arith, h 0 (ground arith)))
take_alike (suc n) (x ∷ s) [] h = absurd (ground (arith, h 0 (ground arith)))
take_alike (suc n) (x ∷ s) (y ∷ t) h =
    ground (arith, h 0 (ground arith), take_alike n s t (λ i less. h (suc i) (omega arith)))

-- Tokens of one length that start alike are masked alike, whatever else they hold.
mask_token_alike :
    (n : ℕ) (s t : List ℕ)
    → length s ≡ length t
    → ((i : ℕ) → i < n → get_elem? s i ≡ get_elem? t i)
    → mask_token n s ≡ mask_token n t
unfolding mask_token
mask_token_alike n s t long alike = rw (long, take_alike n s t alike) refl
