-- ===== src/Router/Rules.antt =====
-- The rules of the router, its cache of them, and the handlers that it finds.
use self_optimizing_competit.Base.{
  ◌+◌, ◌≤◌, ◌≡◌, refl, sym, ap, ◌∙◌, Bool, true, false, ◌&&◌, not, some, String, List, [], ◌∷◌,
  ◌++◌, length, keep, map, count, All, All-map, arith, ltb, if◌then◌else◌, Bool-cases, Option-cases,
  inl, inr, count-append, length-keep, count-le-length,
}
use self_optimizing_competit.Base.Int.{ℤ, ◌≤ℤ◌, leb_ℤ}
use self_optimizing_competit.Base.Dict.{lookup, key_eq, insert_every}
use self_optimizing_competit.Router.{
  RoutedMessage, RoutingRule, Handling, MessageRouter, sort_in, sort, add_rule, remove_rule,
  matching_rules, find_handlers, update_stats, or_default, deliver, route_checked,
}

module _ {H World : Type 0} (matches : String → String → Bool)
    (handle : H → RoutedMessage → World → Handling × World) where
  abbrev Rule : Type 0
  Rule = RoutingRule H

  -- By falling priority
  abbrev pub IsSorted : List Rule → Type 0
  IsSorted [] = Unit
  IsSorted (r ∷ rs) = All (λ s. s.priority ≤ℤ r.priority) rs × IsSorted rs

  sort_in-All {κ} :
      (P : Rule → Type κ) (r : Rule) (rs : List Rule)
      → P r
      → All P rs
      → All P (sort_in matches handle r rs)
  sort_in-All P r [] p h = (p, tt)
  sort_in-All P r (s ∷ rs) p h = elim (Bool-cases (leb_ℤ s.priority r.priority)) [
    | inl below ↦ rw below (p, h)
    | inr above ↦ rw above (h.0, sort_in-All P r rs p h.1)
  ]

  sort_in-IsSorted :
      (r : Rule) (rs : List Rule) → IsSorted rs → IsSorted (sort_in matches handle r rs)
  sort_in-IsSorted r [] h = (tt, tt)
  sort_in-IsSorted r (s ∷ rs) h = elim (Bool-cases (leb_ℤ s.priority r.priority)) [
    | inl below ↦
        let under : s.priority ≤ℤ r.priority = ground arith in
        rw below ((under, All-map (λ t le. omega arith) rs h.0), h)
    | inr above ↦ rw above (
      sort_in-All (λ t. t.priority ≤ℤ s.priority) r rs (ground arith) h.0,
      sort_in-IsSorted r rs h.1,
    )
  ]

  sort-IsSorted : (rs : List Rule) → IsSorted (sort matches handle rs)
  sort-IsSorted [] = tt
  sort-IsSorted (r ∷ rs) = sort_in-IsSorted r (sort matches handle rs) (sort-IsSorted rs)

  keep-All {κ} :
      (P : Rule → Type κ) (p : Rule → Bool) (rs : List Rule) → All P rs → All P (keep p rs)
  keep-All P p [] h = tt
  keep-All P p (r ∷ rs) h = elim (Bool-cases (p r)) [
    | inl kept ↦ rw kept (h.0, keep-All P p rs h.1)
    | inr gone ↦ rw gone (keep-All P p rs h.1)
  ]

  keep-IsSorted : (p : Rule → Bool) (rs : List Rule) → IsSorted rs → IsSorted (keep p rs)
  keep-IsSorted p [] h = tt
  keep-IsSorted p (r ∷ rs) h = elim (Bool-cases (p r)) [
    | inl kept ↦ rw kept (keep-All _ p rs h.0, keep-IsSorted p rs h.1)
    | inr gone ↦ rw gone (keep-IsSorted p rs h.1)
  ]

  count-sort_in :
      (p : Rule → Bool) (r : Rule) (rs : List Rule)
      → count p (sort_in matches handle r rs) ≡ count p (r ∷ rs)
  count-sort_in p r [] = refl
  count-sort_in p r (s ∷ rs) = ground (arith, count-sort_in p r rs)

  count-sort : (p : Rule → Bool) (rs : List Rule) → count p (sort matches handle rs) ≡ count p rs
  count-sort p [] = refl
  count-sort p (r ∷ rs) =
      count-sort_in p r (sort matches handle rs) ∙ ground (arith, count-sort p rs)

  count-keep :
      (p q : Rule → Bool) (rs : List Rule) → count p (keep q rs) ≡ count (λ r. q r && p r) rs
  count-keep p q [] = refl
  count-keep p q (r ∷ rs) = ground (arith, count-keep p q rs)

  -- The rules are those that were added and not removed, by falling priority, and the cache of a key
  -- has the rules that match it.
  pub record IsRouter (kept : List Rule) (m : MessageRouter H) : Type 0 where
    pub sorted : IsSorted m.rules
    pub same_rules : (p : Rule → Bool) → count p m.rules ≡ count p kept
    pub cached :
        (k : String) (rs : List Rule)
        → lookup k m.handler_cache ≡ some rs
        → rs ≡ matching_rules matches handle k m.rules

  abbrev pub rule_of : String → H → ℤ → Rule
  rule_of pattern handler priority = record {
    pattern = pattern;
    handler = handler;
    priority = priority;
    enabled = true;
  }

  abbrev pub other_than : String → Rule → Bool
  other_than pattern r = not (key_eq r.pattern pattern)

  pub add_rule-IsRouter :
      (pattern : String) (handler : H) (priority : ℤ) (kept : List Rule) (m : MessageRouter H)
      → IsRouter kept m
      → IsRouter
          (kept ++ rule_of pattern handler priority ∷ [])
          (add_rule matches handle pattern handler priority m)
  unfolding add_rule
  add_rule-IsRouter pattern handler priority kept m h =
      let r = rule_of pattern handler priority in
      record {
        sorted = sort-IsSorted (m.rules ++ r ∷ []);
        same_rules = λ p.
            count-sort p (m.rules ++ r ∷ [])
            ∙ count-append p m.rules (r ∷ [])
            ∙ ap (λ n. n + count p (r ∷ [])) (h.same_rules p)
            ∙ sym (count-append p kept (r ∷ []));
        cached = λ k rs e. absurd (ground (arith, e));
      }

  -- A filter that leaves as many elements leaves all.
  keep_all : (p : Rule → Bool) (rs : List Rule) → length (keep p rs) ≡ length rs → keep p rs ≡ rs
  keep_all p [] e = refl
  keep_all p (r ∷ rs) e =
      let fewer : length (keep p rs) ≤ length rs = rw (length-keep p rs) (count-le-length p rs) in
      ground (arith, keep_all p rs, fewer)

  -- The cache is cleared when a rule goes, and stays when none does.
  removed_cached :
      (p : Rule → Bool) (m : MessageRouter H) (k : String) (rs : List Rule)
      → ((j : String) (us : List Rule)
          → lookup j m.handler_cache ≡ some us
          → us ≡ matching_rules matches handle j m.rules)
      → lookup k (if ltb (length (keep p m.rules)) (length m.rules) then [] else m.handler_cache)
        ≡ some rs
      → rs ≡ matching_rules matches handle k (keep p m.rules)
  removed_cached p m k rs cached e =
      elim (Bool-cases (ltb (length (keep p m.rules)) (length m.rules))) [
        | inl fewer ↦ absurd (ground (arith, (rw fewer at e)))
        | inr all ↦
            let most : length (keep p m.rules) ≤ length m.rules =
              rw (length-keep p m.rules) (count-le-length p m.rules) in
            rw (keep_all p m.rules (ground arith)) (cached k rs (rw all at e))
      ]

  pub remove_rule-IsRouter :
      (pattern : String) (kept : List Rule) (m : MessageRouter H)
      → IsRouter kept m
      → IsRouter (keep (other_than pattern) kept) (remove_rule matches handle pattern m).1
  unfolding remove_rule
  remove_rule-IsRouter pattern kept m h = record {
    sorted = keep-IsSorted (other_than pattern) m.rules h.sorted;
    same_rules = λ p.
        count-keep p (other_than pattern) m.rules
        ∙ h.same_rules (λ r. other_than pattern r && p r)
        ∙ sym (count-keep p (other_than pattern) kept);
    cached = λ k rs e. removed_cached (other_than pattern) m k rs h.cached e;
  }

  pub find_handlers_lem :
      (k : String) (kept : List Rule) (m : MessageRouter H)
      → IsRouter kept m
      → ((find_handlers matches handle k m).0
          ≡ map (λ r. r.handler) (matching_rules matches handle k m.rules))
        × IsRouter kept (find_handlers matches handle k m).1
        × ((find_handlers matches handle k m).1.rules ≡ m.rules)
  unfolding find_handlers
  find_handlers_lem k kept m h = elim (Option-cases (lookup k m.handler_cache)) [
    | inr (rs, found) ↦
        rw (found, find_handlers) (ap (map (λ r. r.handler)) (h.cached k rs found), h, refl)
    | inl missing ↦
        rw (missing, find_handlers)
          (
            refl,
            record {
              sorted = h.sorted;
              same_rules = h.same_rules;
              cached =
                  insert_every (λ j rs. rs ≡ matching_rules matches handle j m.rules) k
                    (matching_rules matches handle k m.rules) m.handler_cache refl h.cached;
            },
            refl,
          )
  ]

  pub alike-IsRouter :
      (kept : List Rule) (m m' : MessageRouter H)
      → m'.rules ≡ m.rules
      → m'.handler_cache ≡ m.handler_cache
      → IsRouter kept m
      → IsRouter kept m'
  alike-IsRouter kept m m' rules cache h = record {
    sorted = rw rules h.sorted;
    same_rules = λ p. rw rules (h.same_rules p);
    cached = λ k rs e. rw rules (h.cached k rs (rw cache at e));
  }

  delivered :
      (hs : List H) (message : RoutedMessage) (kept : List Rule) (m : MessageRouter H) (w : World)
      → IsRouter kept m
      → IsRouter kept (deliver matches handle hs message m w).1.0
  unfolding update_stats
  delivered [] message kept m w h = alike-IsRouter kept m _ refl refl h
  delivered (x ∷ hs) message kept m w h = alike-IsRouter kept m _ refl refl h

  pub route_checked-IsRouter :
      (p : Bool × RoutedMessage) (kept : List Rule) (m : MessageRouter H) (w : World)
      → IsRouter kept m
      → IsRouter kept (route_checked matches handle p m w).1.0
  unfolding update_stats
  route_checked-IsRouter (false, message) kept m w h = alike-IsRouter kept m _ refl refl h
  route_checked-IsRouter (true, message) kept m w h =
      let found = find_handlers_lem message.routing_key kept m h in
      delivered
        (or_default matches handle m.default_handler
          (find_handlers matches handle message.routing_key m).0)
        message kept _ w found.1
