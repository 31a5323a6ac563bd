-- ===== src/Router.antt =====
-- `MessageRouter` of core/infrastructure/messaging/router.py with its three middlewares. The match of
-- a pattern with a routing key is a parameter, as is what a handler does with a message, which may
-- change the world but not the message; patterns compile. The time of the last message is left out.
pub mod Rules
pub mod Handlers
mod Examples
use self_optimizing_competit.Base.{
  ℕ, ◌+◌, Bool, true, false, ◌&&◌, not, Option, none, some, String, List, [], ◌∷◌, ◌++◌, length,
  keep, map, ltb, if◌then◌else◌,
}
use self_optimizing_competit.Base.Int.{ℤ, leb_ℤ}
use self_optimizing_competit.Base.Dict.{Dict, lookup, insert, key_eq}
use self_optimizing_competit.Broker.{MessageStatus}

-- The parts of a message that the router reads and writes; `has_body` is whether the body is not
-- empty.
pub record RoutedMessage : Type 0 where
  pub id : String
  pub routing_key : String
  pub has_body : Bool
  pub retries : ℕ
  pub status : MessageStatus
  pub error : Option String

pub record RoutingRule (H : Type 0) : Type 0 where
  pub pattern : String
  pub handler : H
  pub priority : ℤ
  pub enabled : Bool

pub record MessageHandlerStats : Type 0 where
  pub routing_key : String
  pub total_handled : ℕ
  pub total_successful : ℕ
  pub total_failed : ℕ
  pub error_count : ℕ
  pub last_error : Option String

pub data Middleware : Type 0 where
  validation logging : Middleware
  retry : ℕ → Middleware

-- What a handler does with a message: it does not take it, succeeds, fails, or raises.
pub data Handling : Type 0 where
  declined succeeded refused : Handling
  raised : String → Handling

pub record MessageRouter (H : Type 0) : Type 0 where
  pub rules : List (RoutingRule H)
  pub default_handler : Option H
  pub middlewares : List Middleware
  pub stats : Dict MessageHandlerStats
  pub handler_cache : Dict (List (RoutingRule H))

-- `before_route` of a middleware: whether routing goes on, and the message
abbrev pub before_route : Middleware → RoutedMessage → Bool × RoutedMessage
before_route validation m =
    if m.has_body then (if key_eq m.routing_key "" then (false, m) else (true, m)) else (false, m)
before_route logging m = (true, m)
before_route (retry max_retries) m =
    if ltb max_retries m.retries
    then (false, record m { status = MessageStatus.dead_lettered })
    else (true, m)

abbrev pub after_route : Bool → Middleware → RoutedMessage → RoutedMessage
after_route success validation m = m
after_route success logging m = m
after_route success (retry max_retries) m =
    if success then m else record m { retries = m.retries + 1 }

-- Both loops over the middlewares; the first ends at the first that says no.
abbrev pub before_all : List Middleware → RoutedMessage → Bool × RoutedMessage
before_all [] m = (true, m)
before_all (x ∷ xs) m =
    let (goes_on, m') = before_route x m in
    let rest = before_all xs m' in if goes_on then rest else (false, m')

abbrev pub after_all : Bool → List Middleware → RoutedMessage → RoutedMessage
after_all success [] m = m
after_all success (x ∷ xs) m = after_all success xs (after_route success x m)

abbrev pub no_stats : MessageHandlerStats
no_stats = record {
  routing_key = "";
  total_handled = 0;
  total_successful = 0;
  total_failed = 0;
  error_count = 0;
  last_error = none;
}

abbrev pub or_no_stats : Option MessageHandlerStats → MessageHandlerStats
or_no_stats none = no_stats
or_no_stats (some s) = s

abbrev pub count_result : RoutedMessage → Bool → MessageHandlerStats → MessageHandlerStats
count_result m success s =
    let handled = record s { routing_key = m.routing_key; total_handled = s.total_handled + 1 } in
    if success
    then record handled { total_successful = s.total_successful + 1 }
    else record handled {
      total_failed = s.total_failed + 1;
      error_count = s.error_count + 1;
      last_error = m.error;
    }

module _ {H World : Type 0} (matches : String → String → Bool)
    (handle : H → RoutedMessage → World → Handling × World) where
  unfoldable pub init : Option H → MessageRouter H
  init default_handler = record {
    rules = [];
    default_handler = default_handler;
    middlewares = [];
    stats = [];
    handler_cache = [];
  }

  -- A stable sort by falling priority
  abbrev pub sort_in : RoutingRule H → List (RoutingRule H) → List (RoutingRule H)
  sort_in r [] = r ∷ []
  sort_in r (s ∷ ss) = if leb_ℤ s.priority r.priority then r ∷ s ∷ ss else s ∷ sort_in r ss

  abbrev pub sort : List (RoutingRule H) → List (RoutingRule H)
  sort [] = []
  sort (r ∷ rs) = sort_in r (sort rs)

  unfoldable pub add_rule : String → H → ℤ → MessageRouter H → MessageRouter H
  add_rule pattern handler priority m = record m {
    rules = sort (
        m.rules
        ++ record { pattern = pattern; handler = handler; priority = priority; enabled = true }
          ∷ []);
    handler_cache = [];
  }

  unfoldable pub remove_rule : String → MessageRouter H → Bool × MessageRouter H
  remove_rule pattern m =
      let rules = keep (λ r. not (key_eq r.pattern pattern)) m.rules in
      let removed = ltb (length rules) (length m.rules) in
      (removed, record m { rules = rules; handler_cache = if removed then [] else m.handler_cache })

  unfoldable pub add_middleware : Middleware → MessageRouter H → MessageRouter H
  add_middleware x m = record m { middlewares = m.middlewares ++ x ∷ [] }

  abbrev pub matching_rules : String → List (RoutingRule H) → List (RoutingRule H)
  matching_rules routing_key rules = keep (λ r. r.enabled && matches r.pattern routing_key) rules

  unfoldable pub find_handlers : String → MessageRouter H → List H × MessageRouter H
  find_handlers routing_key m = elim (lookup routing_key m.handler_cache) [
    | some rules ↦ (map (λ r. r.handler) rules, m)
    | none ↦
        let rules = matching_rules routing_key m.rules in
        (
          map (λ r. r.handler) rules,
          record m { handler_cache = insert routing_key rules m.handler_cache },
        )
  ]

  unfoldable pub update_stats : RoutedMessage → Bool → MessageRouter H → MessageRouter H
  update_stats message success m = record m {
    stats =
        insert message.routing_key
          (count_result message success (or_no_stats (lookup message.routing_key m.stats))) m.stats;
  }

  -- The loop over the handlers, which ends at the first that succeeds
  abbrev pub noted : Handling → RoutedMessage → RoutedMessage
  noted declined message = message
  noted succeeded message = record message { status = MessageStatus.processed }
  noted refused message = message
  noted (raised e) message = record message { status = MessageStatus.failed; error = some e }

  abbrev pub is_success : Handling → Bool
  is_success declined = false
  is_success succeeded = true
  is_success refused = false
  is_success (raised e) = false

  abbrev pub try_handlers : List H → RoutedMessage → World → (Bool × RoutedMessage) × World
  try_handlers [] message w = ((false, message), w)
  try_handlers (h ∷ hs) message w =
      let (handling, w') = handle h message w in
      let rest = try_handlers hs (noted handling message) w' in
      if is_success handling then ((true, noted handling message), w') else rest

  abbrev pub or_default : Option H → List H → List H
  or_default none hs = hs
  or_default (some h) [] = h ∷ []
  or_default (some h) (x ∷ xs) = x ∷ xs

  abbrev pub closed_with :
      List Middleware
      → (Bool × RoutedMessage) × World
      → MessageRouter H
      → (Bool × RoutedMessage) × (MessageRouter H × World)
  closed_with middlewares ((success, message), w) m =
      let message' = after_all success middlewares message in
      ((success, message'), (update_stats message' success m, w))

  abbrev pub deliver :
      List H
      → RoutedMessage
      → MessageRouter H
      → World
      → (Bool × RoutedMessage) × (MessageRouter H × World)
  deliver [] message m w =
      let failed = record message { status = MessageStatus.failed } in
      ((false, failed), (update_stats failed false m, w))
  deliver (h ∷ hs) message m w = closed_with m.middlewares (try_handlers (h ∷ hs) message w) m

  abbrev pub route_checked :
      Bool × RoutedMessage
      → MessageRouter H
      → World
      → (Bool × RoutedMessage) × (MessageRouter H × World)
  route_checked (false, message) m w = ((false, message), (update_stats message false m, w))
  route_checked (true, message) m w =
      let (handlers, m') = find_handlers message.routing_key m in
      deliver (or_default m.default_handler handlers) message m' w

  -- The answer, the message, and the router
  unfoldable pub route :
      RoutedMessage → MessageRouter H → World → (Bool × RoutedMessage) × (MessageRouter H × World)
  route message m w = route_checked (before_all m.middlewares message) m w
