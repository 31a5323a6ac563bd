-- ===== src/Cache/Examples.antt =====
-- Runs on small inputs, and each theorem at an input that meets its hypotheses.
use self_optimizing_competit.Base.{
  ℕ, ◌+◌, ◌*◌, ◌≡◌, refl, true, false, none, some, String, List, [], ◌∷◌, arith, length,
  if◌then◌else◌,
}
use self_optimizing_competit.Base.Dict.{lookup}
use self_optimizing_competit.RateLimit.Metrics.{second}
use self_optimizing_competit.Cache
use self_optimizing_competit.Cache.{InMemoryCache, init, set, delete_by_tag, is_member, keys_of}
use self_optimizing_competit.Cache.Lazy.{
  Operation, get_op, exists_op, set_op, delete_op, got, there, done, deleted, AllSame, perform_all,
  recall_all,
}
use self_optimizing_competit.Cache.Lazy.Runs.{perform_all-recall_all}
use self_optimizing_competit.Cache.Tags.Deletion.{has_tag}
use self_optimizing_competit.Cache.Tags.History
use self_optimizing_competit.Cache.Tags.History.{delete_by_tag_exact, delete_by_tag_stale}

abbrev size : ℕ → ℕ
size v = 1

-- Stored for five seconds, read within them and after them.
abbrev operations : List (ℕ × Operation ℕ)
operations =
    (0, set_op "a" 7 (some 5) [])
    ∷ (4 * second, get_op "a")
    ∷ (6 * second, get_op "a")
    ∷ (6 * second, exists_op "a")
    ∷ (6 * second, delete_op "a")
    ∷ (7 * second, set_op "b" 8 none [])
    ∷ (7 * second, delete_op "b")
    ∷ []

answers :
    perform_all size operations (init 3600)
    ≡ done ∷ got (some 7) ∷ got none ∷ there false ∷ deleted false ∷ done ∷ deleted true ∷ []
unfolding init Cache.get set Cache.exists Cache.delete
answers = refl

perform_all-recall_all_example :
    AllSame (perform_all size operations (init 3600)) (recall_all 3600 operations (λ k. none))
perform_all-recall_all_example = perform_all-recall_all size 3600 0 operations (
  omega arith,
  (omega arith, (omega arith, (omega arith, (omega arith, (omega arith, (omega arith, tt)))))),
)

one_stored : InMemoryCache ℕ
one_stored = set size 0 "a" 7 none ("red" ∷ []) (init 3600)

one_reached : History.Reach 3600 one_stored
unfolding one_stored
one_reached = History.next History.here (History.stored size 0 "a" 7 none ("red" ∷ []))

delete_by_tag_exact_example :
    let (n, c') = delete_by_tag "red" one_stored in
    ((k : String)
      → lookup k c'.entries ≡ (
          if is_member k (keys_of "red" one_stored.tag_index)
          then none
          else lookup k one_stored.entries))
    × ((k : String) → has_tag "red" (lookup k c'.entries) ≡ false)
    × (n + length c'.entries ≡ length one_stored.entries)
delete_by_tag_exact_example = delete_by_tag_exact 3600 "red" one_stored one_reached

stale_tag :
    lookup "b"
      (delete_by_tag "red" (
        set size 2 "b" 9 none
          ("blue" ∷ [])
          (set size 1 "b" 8 none ("red" ∷ []) one_stored))).1.entries
    ≡ none
stale_tag =
    delete_by_tag_stale 3600 size 1 2 "b" "red" 8 9 none none ("red" ∷ []) ("blue" ∷ []) one_stored
      one_reached refl
