-- ===== src/Workflows/Communicator.antt =====
-- `AgentCommunicator` of core/application/orchestrators/__init__.py. `X` is what a message says;
-- times are left out.
use self_optimizing_competit.Base.{
  ℕ, ◌-◌, none, some, String, List, [], ◌∷◌, ◌++◌, length, if◌then◌else◌,
}
use self_optimizing_competit.Base.Dict.{Dict, lookup, contains, insert}

pub record AgentMessage (X : Type 0) : Type 0 where
  pub sender : String
  pub to : String
  pub message_type : String
  pub content : X

pub record AgentCommunicator (X : Type 0) : Type 0 where
  pub message_queue : List (AgentMessage X)
  pub agent_channels : Dict (List (AgentMessage X))

pub record MessageStatistics : Type 0 where
  pub total_messages : ℕ
  pub agents_with_messages : ℕ
  pub channels : Dict ℕ

module _ {X : Type 0} where
  unfoldable pub get_messages : String → AgentCommunicator X → List (AgentMessage X)
  get_messages agent_id c = elim (lookup agent_id c.agent_channels) [ none ↦ [] | some ms ↦ ms ]

  -- The answer is the number of the message.
  unfoldable pub send_message : AgentMessage X → AgentCommunicator X → ℕ × AgentCommunicator X
  unfolding get_messages
  send_message message c =
      let queue = c.message_queue ++ message ∷ [] in
      (
        length queue - 1,
        record c {
          message_queue = queue;
          agent_channels =
              insert message.to (get_messages message.to c ++ message ∷ []) c.agent_channels;
        },
      )

  unfoldable pub clear_messages : String → AgentCommunicator X → AgentCommunicator X
  clear_messages agent_id c =
      if contains agent_id c.agent_channels
      then record c { agent_channels = insert agent_id [] c.agent_channels }
      else c

  abbrev lengths : Dict (List (AgentMessage X)) → Dict ℕ
  lengths [] = []
  lengths ((k, ms) ∷ d) = (k, length ms) ∷ lengths d

  unfoldable pub get_message_statistics : AgentCommunicator X → MessageStatistics
  get_message_statistics c = record {
    total_messages = length c.message_queue;
    agents_with_messages = length c.agent_channels;
    channels = lengths c.agent_channels;
  }
