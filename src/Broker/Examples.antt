-- ===== src/Broker/Examples.antt =====
-- A message that is published to a queue with a subscriber stays there.
use self_optimizing_competit.Base.{
  ℕ, ◌≡◌, refl, Bool, true, some, String, List, [], ◌∷◌, ◌==◌, keep,
}
use self_optimizing_competit.Base.Dict.{lookup}
use Prim.Native.String.{◌++◌ as glue}
use self_optimizing_competit.Broker
use self_optimizing_competit.Broker.{
  Message, MessageStatus, InMemoryBroker, publish, subscribe, bind_queue, consume, declare_queue,
}
use self_optimizing_competit.Broker.Consumers.{
  Operation, published, bound, subscribed, turned, run, is_produced, messages_of, taken,
  run-produced,
}

abbrev join : String → String → String
join exchange key = glue exchange (glue ":" key)

abbrev same : ℕ → ℕ → Bool
same f g = f == g

abbrev returns : ℕ → Message → Bool
returns f m = true

abbrev unsent : ℕ → MessageStatus
unsent i = MessageStatus.pending

abbrev message : Message
message = record { id = 4; exchange = "x"; routing_key = "k" }

abbrev history : List (Operation join same returns)
history = bound "q" "x" "k" ∷ subscribed "s" "q" 1 ∷ published message ∷ turned 0 ∷ turned 0 ∷ []

stays :
    lookup "q" (run join same returns history (Broker.init join same unsent)).queues
    ≡ some (message ∷ [])
unfolding Broker.init bind_queue subscribe publish consume
stays = refl

run-produced_example :
    let b = Broker.init join same unsent in
    (messages_of join same returns (run join same returns history b)
      ≡ run join same returns (keep (is_produced join same returns) history) b)
    × (taken join same returns (run join same returns history b) ≡ (0, 0, 0))
run-produced_example = run-produced join same returns history unsent
