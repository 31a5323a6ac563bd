-- ===== src/Broker.antt =====
-- `InMemoryBroker` of core/infrastructure/messaging/broker.py. Messages are objects, known by a
-- number, and the broker keeps what it writes to them. A subscription starts a consumer, which takes
-- one turn at a time; other tasks run between the turns.
pub mod Consumers
mod Examples
use self_optimizing_competit.Base.{
  ℕ, zero, suc, ◌+◌, max, Bool, true, false, Option, none, some, String, List, [], ◌∷◌, ◌++◌,
  length, drop, ltb, ◌==◌, if◌then◌else◌,
}
use self_optimizing_competit.Base.Dict.{Dict, lookup, insert, key_eq}

pub data MessageStatus : Type 0 where
  pending sent delivered processed failed dead_lettered : MessageStatus

-- The parts of a message that decide where it goes
pub record Message : Type 0 where
  pub id : ℕ
  pub exchange : String
  pub routing_key : String

-- The fields that this broker writes
pub record MessageStats : Type 0 where
  pub total_published : ℕ
  pub total_consumed : ℕ
  pub total_failed : ℕ
  pub total_acknowledged : ℕ
  pub messages_in_queue : ℕ
  pub max_queue_size : ℕ
  pub consumers_active : ℕ

-- What a set of subscribers may hold: `subscribe` adds callbacks, and the consumers and
-- `unsubscribe` ask for identifiers.
pub data Subscriber (F : Type 0) : Type 0 where
  identifier : String → Subscriber F
  callback : F → Subscriber F

-- A consumer, by the identifier of its subscription, its queue and its callback
pub record Consumer (F : Type 0) : Type 0 where
  pub subscription_id : String
  pub queue_name : String
  pub call : F

pub record InMemoryBroker (F : Type 0) : Type 0 where
  pub queues : Dict (List Message)
  pub subscribers : Dict (List (Subscriber F))
  pub exchanges : Dict String
  pub bindings : Dict (List String)
  pub stats : MessageStats
  pub statuses : ℕ → MessageStatus
  pub consumers : List (Consumer F)

-- An entry of a defaultdict
abbrev pub or_empty {ℓ} : {A : Type ℓ} → Option (List A) → List A
or_empty none = []
or_empty (some xs) = xs

-- `append` on a deque with `maxlen=1000`
abbrev pub append_bounded {ℓ} : {A : Type ℓ} → A → List A → List A
append_bounded x xs =
    let longer = xs ++ x ∷ [] in if ltb 1000 (length longer) then drop 1 longer else longer

abbrev pub total_length {ℓ} : {A : Type ℓ} → Dict (List A) → ℕ
total_length [] = 0
total_length ((k, xs) ∷ d) = length xs + total_length d

abbrev pub set_status : ℕ → MessageStatus → (ℕ → MessageStatus) → ℕ → MessageStatus
set_status i status statuses j = if i == j then status else statuses j

-- `join` makes the key of a binding from an exchange and a routing key; `same` is whether two
-- callbacks are one object.
module _ {F : Type 0} (join : String → String → String) (same : F → F → Bool) where
  unfoldable pub init : (ℕ → MessageStatus) → InMemoryBroker F
  init statuses = record {
    queues = [];
    subscribers = [];
    exchanges = [];
    bindings = [];
    stats = record {
      total_published = 0;
      total_consumed = 0;
      total_failed = 0;
      total_acknowledged = 0;
      messages_in_queue = 0;
      max_queue_size = 0;
      consumers_active = 0;
    };
    statuses = statuses;
    consumers = [];
  }

  abbrev pub put : Message → List String → Dict (List Message) → Dict (List Message)
  put m [] queues = queues
  put m (name ∷ names) queues =
      put m names (insert name (append_bounded m (or_empty (lookup name queues))) queues)

  -- Nothing in it raises, and the answer is yes.
  unfoldable pub publish : Message → InMemoryBroker F → InMemoryBroker F
  publish m b =
      let queues = put m (or_empty (lookup (join m.exchange m.routing_key) b.bindings)) b.queues in
      let waiting = total_length queues in
      record b {
        queues = queues;
        stats = record b.stats {
          total_published = b.stats.total_published + 1;
          messages_in_queue = waiting;
          max_queue_size = max b.stats.max_queue_size waiting;
        };
        statuses = set_status m.id sent b.statuses;
      }

  abbrev pub is_same : Subscriber F → Subscriber F → Bool
  is_same (identifier i) (identifier j) = key_eq i j
  is_same (identifier i) (callback f) = false
  is_same (callback f) (identifier j) = false
  is_same (callback f) (callback g) = same f g

  abbrev pub is_in : Subscriber F → List (Subscriber F) → Bool
  is_in s [] = false
  is_in s (t ∷ ts) = let rest = is_in s ts in if is_same s t then true else rest

  abbrev pub add : Subscriber F → List (Subscriber F) → List (Subscriber F)
  add s ts = if is_in s ts then ts else ts ++ s ∷ []

  abbrev pub discard : Subscriber F → List (Subscriber F) → List (Subscriber F)
  discard s [] = []
  discard s (t ∷ ts) = if is_same s t then ts else t ∷ discard s ts

  unfoldable pub subscribe : String → String → F → InMemoryBroker F → InMemoryBroker F
  subscribe subscription_id queue_name call b = record b {
    subscribers =
        insert queue_name (add (callback call) (or_empty (lookup queue_name b.subscribers)))
          b.subscribers;
    consumers =
        b.consumers
        ++ record { subscription_id = subscription_id; queue_name = queue_name; call = call } ∷ [];
  }

  -- A message is taken from its queue, and the callback returns or raises.
  abbrev pub consumed : Bool → Message → InMemoryBroker F → InMemoryBroker F
  consumed true m b = record b {
    statuses = set_status m.id processed b.statuses;
    stats = record b.stats {
      total_consumed = b.stats.total_consumed + 1;
      total_acknowledged = b.stats.total_acknowledged + 1;
    };
  }
  consumed false m b = record b {
    stats = record b.stats { total_failed = b.stats.total_failed + 1 };
  }

  abbrev pub take_from :
      (F → Message → Bool) → Consumer F → List Message → InMemoryBroker F → InMemoryBroker F
  take_from returns c [] b = record b { queues = insert c.queue_name [] b.queues }
  take_from returns c (m ∷ ms) b =
      consumed (returns c.call m) m (record b { queues = insert c.queue_name ms b.queues })

  abbrev pub is_subscribed : Consumer F → InMemoryBroker F → Bool
  is_subscribed c b =
      is_in (identifier c.subscription_id) (or_empty (lookup c.queue_name b.subscribers))

  abbrev pub remove_at : ℕ → List (Consumer F) → List (Consumer F)
  remove_at i [] = []
  remove_at zero (c ∷ cs) = cs
  remove_at (suc i) (c ∷ cs) = c ∷ remove_at i cs

  -- One turn of the loop `consume` of the consumer `c`, which stands at `i`: it ends when its
  -- identifier is no subscriber of the queue.
  unfoldable pub consume :
      (F → Message → Bool) → ℕ → Consumer F → InMemoryBroker F → InMemoryBroker F
  consume returns i c b =
      if is_subscribed c b
      then take_from returns c (or_empty (lookup c.queue_name b.queues)) b
      else record b { consumers = remove_at i b.consumers }

  abbrev pub discard_all : Subscriber F → Dict (List (Subscriber F)) → Dict (List (Subscriber F))
  discard_all s [] = []
  discard_all s ((k, ts) ∷ d) = (k, discard s ts) ∷ discard_all s d

  unfoldable pub unsubscribe : String → InMemoryBroker F → InMemoryBroker F
  unsubscribe subscription_id b = record b {
    subscribers = discard_all (identifier subscription_id) b.subscribers;
  }

  unfoldable pub declare_queue : String → InMemoryBroker F → InMemoryBroker F
  declare_queue queue_name b = record b { queues = insert queue_name [] b.queues }

  unfoldable pub declare_exchange : String → String → InMemoryBroker F → InMemoryBroker F
  declare_exchange name type b = record b { exchanges = insert name type b.exchanges }

  unfoldable pub bind_queue : String → String → String → InMemoryBroker F → InMemoryBroker F
  bind_queue queue_name exchange_name routing_key b =
      let binding_key = join exchange_name routing_key in
      record b {
        bindings =
            insert binding_key (or_empty (lookup binding_key b.bindings) ++ queue_name ∷ [])
              b.bindings;
      }

  unfoldable pub get_stats : InMemoryBroker F → MessageStats
  get_stats b = record b.stats {
    messages_in_queue = total_length b.queues;
    consumers_active = length b.subscribers;
  }

  unfoldable pub purge_queue : String → InMemoryBroker F → ℕ × InMemoryBroker F
  purge_queue queue_name b = (
    length (or_empty (lookup queue_name b.queues)),
    record b { queues = insert queue_name [] b.queues },
  )
