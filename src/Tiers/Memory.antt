-- ===== src/Tiers/Memory.antt =====
-- Any history of the two caches, beside the values that were written last, and the list that the
-- write-back task works on.
use self_optimizing_competit.Base.{ℕ, ◌+◌, ◌<◌, ◌≡◌, ◌≢◌, Option, none, some, String, List, [], ◌∷◌}
use self_optimizing_competit.Base.Dict.{lookup}
use self_optimizing_competit.Tiers.Interface.{Tier, IsLapsed}
use self_optimizing_competit.Tiers.{
  CacheCoherence, WriteBackEntry, Tiers, init, get, set, delete, write_entry, fail_entry,
}
use self_optimizing_competit.Tiers.Coherence.{Memory, put, IsCoherent}
use self_optimizing_competit.Tiers.Taken.{values, IsClear, AllWait}

module _ {V : Type 0} (first second : Tier V) where
  -- One call, one step of the write-back task, or a loss of the first cache. The task takes a list of
  -- the whole queue when it is through with the last one, and works on its entries in turn, whatever
  -- the queue holds by then. No key is written or deleted while the list has an entry for it.
  pub data Step
      : Tiers first second
        → Memory V
        → List (WriteBackEntry V)
        → Tiers first second
        → Memory V
        → List (WriteBackEntry V)
        → Type 0 where
    read :
        (k : String) {m : Tiers first second} {w : Memory V} {taken : List (WriteBackEntry V)}
        → Step m w taken (get first second k m).1 w taken
    written :
        (k : String) (v : V) (ttl : Option ℕ) (tags : List String) {m : Tiers first second}
        {w : Memory V} {taken : List (WriteBackEntry V)}
        → IsClear k taken
        → Step m w taken (set first second k v ttl tags m) (put k (some v) w) taken
    deleted :
        (k : String) {m : Tiers first second} {w : Memory V} {taken : List (WriteBackEntry V)}
        → IsClear k taken
        → Step m w taken (delete first second k m).1 (put k none w) taken
    listed : {m : Tiers first second} {w : Memory V} → Step m w [] m w (values m.write_back_queue)
    flushed :
        (e : WriteBackEntry V) {m : Tiers first second} {w : Memory V}
        {taken : List (WriteBackEntry V)}
        → Step m w (e ∷ taken) (write_entry first second e m) w taken
    retried :
        (e : WriteBackEntry V) {m : Tiers first second} {w : Memory V}
        {taken : List (WriteBackEntry V)}
        → e.attempts + 1 < e.max_attempts
        → Step m w (e ∷ taken) (fail_entry first second e m) w taken
    lapsed :
        (s : first.State) {m : Tiers first second} {w : Memory V} {taken : List (WriteBackEntry V)}
        → IsLapsed first m.l1 s
        → ((j : String) → lookup j m.write_back_queue ≢ none → first.shows s j ≡ first.shows m.l1 j)
        → Step m w taken (record m { l1 = s }) w taken

  pub data Reach (c : CacheCoherence) (s : first.State) (t : second.State)
      : Tiers first second → Memory V → List (WriteBackEntry V) → Type 0 where
    start : Reach c s t (init s t c) (λ k. second.shows t k) []
    next :
        {m m' : Tiers first second} {w w' : Memory V} {taken taken' : List (WriteBackEntry V)}
        → Reach c s t m w taken
        → Step m w taken m' w' taken'
        → Reach c s t m' w' taken'

  pub record IsRight (m : Tiers first second) (w : Memory V) (taken : List (WriteBackEntry V))
      : Type 0 where
    pub coherent : IsCoherent first second m w
    pub waits : AllWait taken m.write_back_queue
