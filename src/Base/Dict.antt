-- ===== src/Base/Dict.antt =====
-- A Python dict with text keys, in insertion order. `d[k] = v` on a known key keeps its place.
use Prim.Native.String.{String}
use mathlib.Core.Path.{◌≡◌, refl, subst}
use mathlib.Core.Logic.{inl, inr}
use mathlib.Core.Bool.{Bool, true, false}
use mathlib.Core.Option.{Option, none, some}
use mathlib.Core.List.{List, [], ◌∷◌}
use native.Mathlib.Omega.{arith}
use text.Mathlib.Text.{◌==◌ as str_eq}
use text.Mathlib.TextEquality.{eq_iff}
use self_optimizing_competit.Base.Tests.{if◌then◌else◌, Bool-cases}

abbrev pub Dict {ℓ} : Type ℓ → Type ℓ
Dict V = List (String × V)

abbrev pub key_eq : String → String → Bool
key_eq = str_eq

pub key_eq_iff : (j k : String) → (key_eq j k ≡ true → j ≡ k) × (j ≡ k → key_eq j k ≡ true)
key_eq_iff j k = eq_iff j k

module _ {ℓ} {V : Type ℓ} where
  -- `d.get(k)`
  abbrev pub lookup : String → Dict V → Option V
  lookup k [] = none
  lookup k ((j, v) ∷ d) = if key_eq j k then some v else lookup k d

  -- `k in d`
  abbrev pub contains : String → Dict V → Bool
  contains k d = elim (lookup k d) [ none ↦ false | some _ ↦ true ]

  -- `d[k] = v`
  abbrev pub insert : String → V → Dict V → Dict V
  insert k v [] = (k, v) ∷ []
  insert k v ((j, w) ∷ d) = if key_eq j k then (j, v) ∷ d else (j, w) ∷ insert k v d

  -- `del d[k]`, and `d.pop(k, None)`
  abbrev pub erase : String → Dict V → Dict V
  erase k [] = []
  erase k ((j, w) ∷ d) = if key_eq j k then d else (j, w) ∷ erase k d

  -- No key is listed twice.
  abbrev pub IsDict : Dict V → Type ℓ
  IsDict [] = Unit
  IsDict ((k, v) ∷ d) = (lookup k d ≡ none) × IsDict d

module _ {ℓ} {V : Type ℓ} where
  pub lookup-insert :
      (k j : String) (v : V) (d : Dict V)
      → lookup j (insert k v d) ≡ (if key_eq k j then some v else lookup j d)
  lookup-insert k j v [] = refl
  lookup-insert k j v ((i, w) ∷ d) =
      ground (arith, eq_iff k j, eq_iff i k, eq_iff i j, lookup-insert k j v d)

  pub lookup-erase :
      (k j : String) (d : Dict V)
      → IsDict d
      → lookup j (erase k d) ≡ (if key_eq k j then none else lookup j d)
  lookup-erase k j [] h = ground arith
  lookup-erase k j ((i, w) ∷ d) h =
      ground (arith, eq_iff k j, eq_iff i k, eq_iff i j, lookup-erase k j d h.1)

  pub insert-IsDict : (k : String) (v : V) (d : Dict V) → IsDict d → IsDict (insert k v d)
  insert-IsDict k v [] h = (refl, tt)
  insert-IsDict k v ((i, w) ∷ d) h =
      ground (arith, eq_iff i k, eq_iff k i, lookup-insert k i v d, insert-IsDict k v d h.1)

  pub erase-IsDict : (k : String) (d : Dict V) → IsDict d → IsDict (erase k d)
  erase-IsDict k [] h = tt
  erase-IsDict k ((i, w) ∷ d) h =
      ground (arith, eq_iff i k, eq_iff k i, lookup-erase k i d h.1, erase-IsDict k d h.1)

  -- A property of every entry survives `d[k] = v`, if it holds of the new entry.
  pub insert_every {κ} :
      (P : String → V → Type κ) (k : String) (v : V) (d : Dict V)
      → P k v
      → ((j : String) (w : V) → lookup j d ≡ some w → P j w)
      → (j : String) (w : V) → lookup j (insert k v d) ≡ some w
      → P j w
  insert_every P k v d new old j w e = elim (Bool-cases (key_eq k j)) [
    | inl same ↦
        let known : lookup j (insert k v d) ≡ some v = ground (arith, lookup-insert k j v d) in
        let at_v : v ≡ w = cc (known, e) in
        subst (P j) at_v (subst (λ i. P i v) ((eq_iff k j).0 same) new)
    | inr other ↦ old j w (ground (arith, lookup-insert k j v d))
  ]

  -- A key that is known stays known.
  pub insert_knows :
      (k j : String) (v : V) (d : Dict V) {w : V}
      → lookup j d ≡ some w
      → (w' : V) × (lookup j (insert k v d) ≡ some w')
  insert_knows k j v d {w} e = elim (Bool-cases (key_eq k j)) [
    | inl same ↦ (v, ground (arith, lookup-insert k j v d))
    | inr other ↦ (w, ground (arith, lookup-insert k j v d))
  ]

  pub lookup-insert_self : (k : String) (v : V) (d : Dict V) → lookup k (insert k v d) ≡ some v
  lookup-insert_self k v d = ground (arith, eq_iff k k, lookup-insert k k v d)
