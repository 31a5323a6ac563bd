-- ===== src/Router/Examples.antt =====
-- Two rules for one key, where the pattern is the key.
use self_optimizing_competit.Base.{
  ℕ, zero, suc, ◌≡◌, refl, Bool, true, ◌&&◌, none, List, [], ◌∷◌, keep, map, count,
}
use self_optimizing_competit.Base.Int.{pos, negsuc}
use self_optimizing_competit.Base.Dict.{key_eq}
use self_optimizing_competit.Broker.{MessageStatus}
use self_optimizing_competit.Router
use self_optimizing_competit.Router.{
  RoutedMessage, RoutingRule, Middleware, Handling, succeeded, refused, retry, MessageRouter,
  add_rule, add_middleware, find_handlers, route, update_stats,
}
use self_optimizing_competit.Router.Rules.{IsSorted}
use self_optimizing_competit.Router.Handlers.{
  Operation, added, removed, wrapped, routed, run, kept_after, find_handlers-run,
}

abbrev handle : ℕ → RoutedMessage → ℕ → Handling × ℕ
handle h m w = elim h [ zero ↦ (refused, suc w) | suc n ↦ (succeeded, suc w) ]

abbrev message : RoutedMessage
message = record {
  id = "m";
  routing_key = "k";
  has_body = true;
  retries = 0;
  status = MessageStatus.pending;
  error = none;
}

abbrev history : List (Operation key_eq handle)
history =
    added "k" 0 (negsuc 0)
    ∷ wrapped (retry 3)
    ∷ routed message 0
    ∷ added "k" 7 (pos 2)
    ∷ added "j" 5 (pos 9)
    ∷ removed "j"
    ∷ []

finds :
    (find_handlers key_eq handle "k" (run key_eq handle history (Router.init key_eq handle none))).0
    ≡ 7 ∷ 0 ∷ []
unfolding Router.init add_rule add_middleware find_handlers route update_stats Router.remove_rule
finds = refl

find_handlers-run_example :
    let m = run key_eq handle history (Router.init key_eq handle none) in
    ((find_handlers key_eq handle "k" m).0
      ≡ map (λ r. r.handler) (keep (λ r. r.enabled && key_eq r.pattern "k") m.rules))
    × IsSorted key_eq handle m.rules
    × ((p : RoutingRule ℕ → Bool) → count p m.rules ≡ count p (kept_after key_eq handle history []))
find_handlers-run_example = find_handlers-run key_eq handle history none "k"
