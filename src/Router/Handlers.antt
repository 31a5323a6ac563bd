-- ===== src/Router/Handlers.antt =====
-- The handlers that the router finds, after any history.
use self_optimizing_competit.Base.{
  ◌≡◌, refl, Bool, ◌&&◌, Option, String, List, [], ◌∷◌, ◌++◌, keep, map, count, arith,
}
use self_optimizing_competit.Base.Int.{ℤ}
use self_optimizing_competit.Router.{
  RoutedMessage, RoutingRule, Middleware, Handling, MessageRouter, init, add_rule, remove_rule,
  add_middleware, find_handlers, before_all, route,
}
use self_optimizing_competit.Router.Rules.{
  IsSorted, IsRouter, rule_of, other_than, add_rule-IsRouter, remove_rule-IsRouter,
  find_handlers_lem, alike-IsRouter, route_checked-IsRouter,
}

module _ {H World : Type 0} (matches : String → String → Bool)
    (handle : H → RoutedMessage → World → Handling × World) where
  pub data Operation : Type 0 where
    added : String → H → ℤ → Operation
    removed : String → Operation
    wrapped : Middleware → Operation
    routed : RoutedMessage → World → Operation

  -- The world of a message is any: other code runs between two messages.
  abbrev pub perform : Operation → MessageRouter H → MessageRouter H
  perform (added pattern handler priority) m = add_rule matches handle pattern handler priority m
  perform (removed pattern) m = (remove_rule matches handle pattern m).1
  perform (wrapped x) m = add_middleware matches handle x m
  perform (routed message w) m = (route matches handle message m w).1.0

  -- The rules as they were added, without those that were removed
  abbrev pub note : Operation → List (RoutingRule H) → List (RoutingRule H)
  note (added pattern handler priority) rs =
      rs ++ rule_of matches handle pattern handler priority ∷ []
  note (removed pattern) rs = keep (other_than matches handle pattern) rs
  note (wrapped x) rs = rs
  note (routed message w) rs = rs

  abbrev pub run : List Operation → MessageRouter H → MessageRouter H
  run [] m = m
  run (o ∷ os) m = run os (perform o m)

  abbrev pub kept_after : List Operation → List (RoutingRule H) → List (RoutingRule H)
  kept_after [] rs = rs
  kept_after (o ∷ os) rs = kept_after os (note o rs)

  perform-IsRouter :
      (o : Operation) (rs : List (RoutingRule H)) (m : MessageRouter H)
      → IsRouter matches handle rs m
      → IsRouter matches handle (note o rs) (perform o m)
  unfolding add_middleware route
  perform-IsRouter (added pattern handler priority) rs m h =
      add_rule-IsRouter matches handle pattern handler priority rs m h
  perform-IsRouter (removed pattern) rs m h = remove_rule-IsRouter matches handle pattern rs m h
  perform-IsRouter (wrapped x) rs m h = alike-IsRouter matches handle rs m _ refl refl h
  perform-IsRouter (routed message w) rs m h =
      route_checked-IsRouter matches handle (before_all m.middlewares message) rs m w h

  run-IsRouter :
      (os : List Operation) (rs : List (RoutingRule H)) (m : MessageRouter H)
      → IsRouter matches handle rs m
      → IsRouter matches handle (kept_after os rs) (run os m)
  run-IsRouter [] rs m h = h
  run-IsRouter (o ∷ os) rs m h =
      run-IsRouter os (note o rs) (perform o m) (perform-IsRouter o rs m h)

  -- After any rules have been added and removed, middlewares added and messages routed, on a new
  -- router: the handlers that it finds for a key, from its cache or not, are those of the rules that
  -- are enabled and match the key, in the order of its rules; its rules fall in priority; and they
  -- are the rules that were added and not removed since, each as often.
  pub find_handlers-run :
      (os : List Operation) (default_handler : Option H) (key : String)
      → let m = run os (init matches handle default_handler) in
        ((find_handlers matches handle key m).0
          ≡ map (λ r. r.handler) (keep (λ r. r.enabled && matches r.pattern key) m.rules))
        × IsSorted matches handle m.rules
        × ((p : RoutingRule H → Bool) → count p m.rules ≡ count p (kept_after os []))
  unfolding init
  find_handlers-run os default_handler key =
      let m0 = init matches handle default_handler in
      let at_start : IsRouter matches handle [] m0 = record {
        sorted = tt;
        same_rules = λ p. refl;
        cached = λ k rs e. absurd (ground (arith, e));
      } in
      let h = run-IsRouter os [] m0 at_start in
      (
        (find_handlers_lem matches handle key (kept_after os []) (run os m0) h).0,
        h.sorted,
        h.same_rules,
      )
