-- ===== src/Tiers/Taken.antt =====
-- The list that the write-back task has taken from the queue, beside the queue as it is now.
use mathlib.Core.Path.{subst}
use text.Mathlib.TextEquality.{eq_iff}
use self_optimizing_competit.Base.{
  ◌≡◌, refl, ◌∙◌, false, none, some, String, List, [], ◌∷◌, arith, Bool-cases, inl, inr,
}
use self_optimizing_competit.Base.Dict.{
  Dict, lookup, insert, erase, key_eq, IsDict, lookup-insert, lookup-erase,
}
use self_optimizing_competit.Tiers.{WriteBackEntry}

module _ {V : Type 0} where
  -- `list(queue.values())`
  abbrev pub values : Dict (WriteBackEntry V) → List (WriteBackEntry V)
  values [] = []
  values ((k, e) ∷ queue) = e ∷ values queue

  -- No entry of the list is for the key.
  abbrev pub IsClear : String → List (WriteBackEntry V) → Type 0
  IsClear k [] = Unit
  IsClear k (e ∷ taken) = (key_eq k e.key ≡ false) × IsClear k taken

  -- Each entry of the list waits in the queue still, and is the only one of the list for its key.
  abbrev pub AllWait : List (WriteBackEntry V) → Dict (WriteBackEntry V) → Type 0
  AllWait [] queue = Unit
  AllWait (e ∷ taken) queue =
      (lookup e.key queue ≡ some e) × IsClear e.key taken × AllWait taken queue

  -- A change under a key that is not in the list.
  pub changed-AllWait :
      (k : String) (taken : List (WriteBackEntry V)) (queue queue' : Dict (WriteBackEntry V))
      → IsClear k taken
      → ((j : String) → key_eq k j ≡ false → lookup j queue' ≡ lookup j queue)
      → AllWait taken queue
      → AllWait taken queue'
  changed-AllWait k [] queue queue' clear same h = tt
  changed-AllWait k (e ∷ taken) queue queue' (other, clear) same (waits, alone, h) =
      (same e.key other ∙ waits, alone, changed-AllWait k taken queue queue' clear same h)

  pub insert_elsewhere :
      (k j : String) (e : WriteBackEntry V) (queue : Dict (WriteBackEntry V))
      → key_eq k j ≡ false
      → lookup j (insert k e queue) ≡ lookup j queue
  insert_elsewhere k j e queue other = rw (lookup-insert k j e queue, other) refl

  pub erase_elsewhere :
      (k j : String) (queue : Dict (WriteBackEntry V))
      → IsDict queue
      → key_eq k j ≡ false
      → lookup j (erase k queue) ≡ lookup j queue
  erase_elsewhere k j queue u other = rw (lookup-erase k j queue u, other) refl

  -- Every entry stands under its own key.
  abbrev IsKeyed : Dict (WriteBackEntry V) → Type 0
  IsKeyed [] = Unit
  IsKeyed ((k, e) ∷ queue) = (e.key ≡ k) × IsKeyed queue

  unlisted-IsClear :
      (k : String) (queue : Dict (WriteBackEntry V))
      → IsKeyed queue
      → lookup k queue ≡ none
      → IsClear k (values queue)
  unlisted-IsClear k [] keyed absent = tt
  unlisted-IsClear k ((j, e) ∷ queue) (at, keyed) absent = elim (Bool-cases (key_eq j k)) [
    | inl same ↦ absurd (ground (arith, absent, same))
    | inr other ↦ (
      rw at (ground (arith, other, eq_iff j k, eq_iff k j)),
      unlisted-IsClear k queue keyed (rw other at absent),
    )
  ]

  values-AllWait :
      (queue : Dict (WriteBackEntry V))
      → IsDict queue
      → IsKeyed queue
      → AllWait (values queue) queue
  values-AllWait [] u keyed = tt
  values-AllWait ((k, e) ∷ queue) (absent, u) (at, keyed) =
      let clear = unlisted-IsClear k queue keyed absent in
      (
        rw (at, (eq_iff k k).1 refl) refl,
        rw at clear,
        changed-AllWait k (values queue) queue ((k, e) ∷ queue) clear (λ j other. rw other refl)
            (values-AllWait queue u keyed),
      )

  queue-IsKeyed :
      (queue : Dict (WriteBackEntry V))
      → IsDict queue
      → ((k : String) (e : WriteBackEntry V) → lookup k queue ≡ some e → e.key ≡ k)
      → IsKeyed queue
  queue-IsKeyed [] u named = tt
  queue-IsKeyed ((k, e) ∷ queue) (absent, u) named = (
    named k e (rw ((eq_iff k k).1 refl) refl),
    queue-IsKeyed queue u (λ j d known. elim (Bool-cases (key_eq k j)) [
      | inl same ↦
          let at_j : lookup j queue ≡ none =
            subst (λ i. lookup i queue ≡ none) ((eq_iff k j).0 same) absent in
          absurd (ground (arith, at_j, known))
      | inr other ↦ named j d (rw other known)
    ]),
  )

  -- The list has just been taken.
  pub taken-AllWait :
      (queue : Dict (WriteBackEntry V))
      → IsDict queue
      → ((k : String) (e : WriteBackEntry V) → lookup k queue ≡ some e → e.key ≡ k)
      → AllWait (values queue) queue
  taken-AllWait queue u named = values-AllWait queue u (queue-IsKeyed queue u named)
