-- ===== src/Broker/Consumers.antt =====
-- What the consumers of the broker do.
use self_optimizing_competit.Base.{
  ℕ, ◌≡◌, refl, ap, ◌∙◌, Bool, true, false, Option, none, some, String, List, [], ◌∷◌, All,
  All-append, get_elem?, keep, if◌then◌else◌, Bool-cases, inl, inr,
}
use self_optimizing_competit.Base.Dict.{Dict, lookup, key_eq, lookup-insert}
use self_optimizing_competit.Broker.{
  Message, MessageStatus, Subscriber, identifier, callback, Consumer, InMemoryBroker, or_empty,
  init, publish, is_same, is_in, add, discard, discard_all, subscribe, is_subscribed, consume,
  unsubscribe, declare_queue, declare_exchange, bind_queue, purge_queue,
}

module _ {F : Type 0} (join : String → String → String) (same : F → F → Bool)
    (returns : F → Message → Bool) where
  pub data Operation : Type 0 where
    published : Message → Operation
    declared : String → Operation
    exchanged : String → String → Operation
    bound : String → String → String → Operation
    purged : String → Operation
    subscribed : String → String → F → Operation
    unsubscribed : String → Operation
    turned : ℕ → Operation

  abbrev B : Type 0
  B = InMemoryBroker F

  -- A turn of the consumer that stands at a place, if there is one
  abbrev turn : ℕ → Option (Consumer F) → B → B
  turn i none b = b
  turn i (some c) b = consume join same returns i c b

  abbrev pub perform : Operation → B → B
  perform (published m) b = publish join same m b
  perform (declared q) b = declare_queue join same q b
  perform (exchanged name type) b = declare_exchange join same name type b
  perform (bound q name key) b = bind_queue join same q name key b
  perform (purged q) b = (purge_queue join same q b).1
  perform (subscribed id q call) b = subscribe join same id q call b
  perform (unsubscribed id) b = unsubscribe join same id b
  perform (turned i) b = turn i (get_elem? b.consumers i) b

  abbrev pub run : List Operation → B → B
  run [] b = b
  run (o ∷ os) b = run os (perform o b)

  -- Whether an operation has nothing to do with subscriptions
  abbrev pub is_produced : Operation → Bool
  is_produced (published m) = true
  is_produced (declared q) = true
  is_produced (exchanged name type) = true
  is_produced (bound q name key) = true
  is_produced (purged q) = true
  is_produced (subscribed id q call) = false
  is_produced (unsubscribed id) = false
  is_produced (turned i) = false

  -- The broker but for its subscribers and consumers
  abbrev pub messages_of : B → B
  messages_of b = record b { subscribers = []; consumers = [] }

  abbrev IsCallback : Subscriber F → Type 0
  IsCallback (identifier i) = ⊥
  IsCallback (callback f) = Unit

  -- Only callbacks subscribe.
  abbrev IsCalled : B → Type 0
  IsCalled b = (q : String) → All IsCallback (or_empty (lookup q b.subscribers))

  never_in :
      (i : String) (ts : List (Subscriber F))
      → All IsCallback ts
      → is_in join same (identifier i) ts ≡ false
  never_in i [] h = refl
  never_in i (identifier j ∷ ts) h = absurd h.0
  never_in i (callback f ∷ ts) h = never_in i ts h.1

  turn_lem :
      (i : ℕ) (o : Option (Consumer F)) (b : B)
      → IsCalled b
      → (messages_of (turn i o b) ≡ messages_of b) × IsCalled (turn i o b)
  unfolding consume
  turn_lem i none b h = (refl, h)
  turn_lem i (some c) b h =
      let ends : is_subscribed join same c b ≡ false =
        never_in c.subscription_id _ (h c.queue_name) in
      rw (ends, consume) (refl, h)

  discard-IsCallback :
      (s : Subscriber F) (ts : List (Subscriber F))
      → All IsCallback ts
      → All IsCallback (discard join same s ts)
  discard-IsCallback s [] h = tt
  discard-IsCallback s (t ∷ ts) h = elim (Bool-cases (is_same join same s t)) [
    | inl found ↦ rw found h.1
    | inr other ↦ rw other (h.0, discard-IsCallback s ts h.1)
  ]

  discard_all-IsCallback :
      (s : Subscriber F) (d : Dict (List (Subscriber F))) (q : String)
      → All IsCallback (or_empty (lookup q d))
      → All IsCallback (or_empty (lookup q (discard_all join same s d)))
  discard_all-IsCallback s [] q h = tt
  discard_all-IsCallback s ((k, ts) ∷ d) q h = elim (Bool-cases (key_eq k q)) [
    | inl found ↦ rw found (discard-IsCallback s ts (rw found at h))
    | inr other ↦ rw other (discard_all-IsCallback s d q (rw other at h))
  ]

  add-IsCallback :
      (f : F) (ts : List (Subscriber F))
      → All IsCallback ts
      → All IsCallback (add join same (callback f) ts)
  add-IsCallback f ts h = elim (Bool-cases (is_in join same (callback f) ts)) [
    | inl known ↦ rw known h
    | inr new ↦ rw new (All-append IsCallback ts (callback f ∷ []) h (tt, tt))
  ]

  subscribe-IsCalled :
      (id q : String) (call : F) (b : B) → IsCalled b → IsCalled (subscribe join same id q call b)
  unfolding subscribe
  subscribe-IsCalled id q call b h k =
      let ts = add join same (callback call) (or_empty (lookup q b.subscribers)) in
      elim (Bool-cases (key_eq q k)) [
        | inl found ↦ rw (lookup-insert q k ts b.subscribers, found) (add-IsCallback call _ (h q))
        | inr other ↦ rw (lookup-insert q k ts b.subscribers, other) (h k)
      ]

  -- What is left of an operation without its part in subscriptions
  abbrev part : Operation → B → B
  part o b = if is_produced o then perform o b else b

  perform_lem :
      (o : Operation) (b : B)
      → IsCalled b
      → (messages_of (perform o b) ≡ part o (messages_of b)) × IsCalled (perform o b)
  unfolding publish declare_queue declare_exchange bind_queue purge_queue subscribe unsubscribe
  perform_lem (published m) b h = (refl, h)
  perform_lem (declared q) b h = (refl, h)
  perform_lem (exchanged name type) b h = (refl, h)
  perform_lem (bound q name key) b h = (refl, h)
  perform_lem (purged q) b h = (refl, h)
  perform_lem (subscribed id q call) b h = (refl, subscribe-IsCalled id q call b h)
  perform_lem (unsubscribed id) b h =
      (refl, λ q. discard_all-IsCallback (identifier id) b.subscribers q (h q))
  perform_lem (turned i) b h = turn_lem i (get_elem? b.consumers i) b h

  run_lem :
      (os : List Operation) (b : B)
      → IsCalled b
      → messages_of (run os b) ≡ run (keep is_produced os) (messages_of b)
  run_lem [] b h = refl
  run_lem (o ∷ os) b h =
      let (same_part, called) = perform_lem o b h in
      let rest = run_lem os (perform o b) called in
      elim (Bool-cases (is_produced o)) [
        | inl produced ↦
            rw produced (rest ∙ ap (run (keep is_produced os)) (rw produced at same_part))
        | inr other ↦ rw other (rest ∙ ap (run (keep is_produced os)) (rw other at same_part))
      ]

  -- Three counters that only the consumers write
  abbrev pub taken : B → ℕ × ℕ × ℕ
  taken b = (b.stats.total_consumed, b.stats.total_acknowledged, b.stats.total_failed)

  taken-part : (o : Operation) (b : B) → taken (part o b) ≡ taken b
  unfolding publish declare_queue declare_exchange bind_queue purge_queue
  taken-part (published m) b = refl
  taken-part (declared q) b = refl
  taken-part (exchanged name type) b = refl
  taken-part (bound q name key) b = refl
  taken-part (purged q) b = refl
  taken-part (subscribed id q call) b = refl
  taken-part (unsubscribed id) b = refl
  taken-part (turned i) b = refl

  taken-run : (os : List Operation) (b : B) → taken (run (keep is_produced os) b) ≡ taken b
  taken-run [] b = refl
  taken-run (o ∷ os) b = elim (Bool-cases (is_produced o)) [
    | inl produced ↦ rw produced (taken-run os (perform o b) ∙ rw produced at (taken-part o b))
    | inr other ↦ rw other (taken-run os b)
  ]

  -- Whatever is published, declared, bound, purged, subscribed and unsubscribed, in any order, and
  -- whichever consumers take their turns in between, on a new broker: the queues, the bindings, the
  -- statistics and the statuses of the messages are those of the same history without its
  -- subscriptions and turns. No message is ever consumed, acknowledged or failed, since a consumer
  -- looks for its identifier among callbacks.
  pub run-produced :
      (os : List Operation) (statuses : ℕ → MessageStatus)
      → let b = init join same statuses in
        (messages_of (run os b) ≡ run (keep is_produced os) b) × (taken (run os b) ≡ (0, 0, 0))
  unfolding init
  run-produced os statuses =
      let b = init join same statuses in
      let alike = run_lem os b (λ q. tt) in (alike, ap taken alike ∙ taken-run os b)
