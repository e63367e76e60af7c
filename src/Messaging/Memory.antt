-- ===== src/Messaging/Memory.antt =====
-- libs/libs/messaging/memory.py: the in-memory adapter. A storage maps a topic to its messages
-- (`defaultdict(list)`). Each published message reads the clock, which nothing reads back: a topic
-- comes with the instant at which it is reached.
use supply_chain_tracker.Prelude.{
  ℕ, ◌+◌, String, Option, none, some, List, [], ◌∷◌, ◌++◌, str_eq, if◌then◌else◌, drop,
}
use supply_chain_tracker.Outcome.{Error, Outcome, returns, raises}
use supply_chain_tracker.Messaging.Value.{Fields, text, dict, end, field}
use supply_chain_tracker.Messaging.Codec.{Codec}
use supply_chain_tracker.Messaging.Base.{
  Event, Command, to_dict, event_from_dict, command_from_dict, optional_text,
}

pub record Message : Type 0 where
  pub key : String
  pub value : Fields
  pub topic : String
  pub timestamp : ℕ

abbrev pub Storage : Type 0
Storage = String → List Message

pub record Broker : Type 0 where
  pub events_storage : Storage
  pub commands_storage : Storage

-- `storage[topic].append(message)`
abbrev pub append : String → Message → Storage → Storage
append topic m storage t = if str_eq t topic then storage t ++ m ∷ [] else storage t

abbrev pub publish : String → Fields → List (String × ℕ) → Storage → Storage
publish key value [] storage = storage
publish key value ((topic, now) ∷ topics) storage =
    publish key value topics
      (append topic (record { key = key; value = value; topic = topic; timestamp = now }) storage)

-- the dictionary that `publish_command` builds
abbrev pub command_dict : Codec → Command → Fields
command_dict c m = field "command_id" (text (c.show_uuid m.command_id)) (
    field "command_type" (text m.command_type) (
      field "aggregate_id" (text (c.show_uuid m.aggregate_id)) (
        field "payload" (dict m.payload)
          (field "correlation_id" (optional_text c m.correlation_id) end))))

unfoldable pub publish_event : Codec → Event → List (String × ℕ) → Broker → Broker
publish_event c e topics b = record b {
  events_storage = publish (c.show_uuid e.aggregate_id) (to_dict c e) topics b.events_storage;
}

unfoldable pub publish_command : Codec → Command → List (String × ℕ) → Broker → Broker
publish_command c m topics b = record b {
  commands_storage =
      publish (c.show_uuid m.aggregate_id) (command_dict c m) topics b.commands_storage;
}

-- What one turn over a topic does: the messages yielded, the offset reached, and the exception of
-- `from_dict` that ended the generator, if any.
pub record Turn (M : Type 0) : Type 0 where
  pub yielded : List M
  pub offset : ℕ
  pub failure : Option Error

-- `for i in range(current_offset, len(messages))`: the offset moves once a message is decoded
unfoldable pub deliver : {M : Type 0} → (Fields → Outcome M) → List Message → ℕ → Turn M
deliver decode [] offset = record { yielded = []; offset = offset; failure = none }
deliver decode (m ∷ ms) offset =
    let rest = deliver decode ms (offset + 1) in
    elim (decode m.value) [
      | returns a ↦ record rest { yielded = a ∷ rest.yielded }
      | raises e ↦ record { yielded = []; offset = offset; failure = some e }
    ]

-- One pass of the `while` loop of `consume_event` over one topic.
unfoldable pub consume_event_turn : Codec → String → ℕ → Broker → Turn Event
unfolding deliver
consume_event_turn c topic offset b =
    deliver (event_from_dict c) (drop offset (b.events_storage topic)) offset

-- One pass of the `while` loop of `consume_command` over one topic.
unfoldable pub consume_command_turn : Codec → String → ℕ → Broker → Turn Command
unfolding deliver
consume_command_turn c topic offset b =
    deliver (command_from_dict c) (drop offset (b.commands_storage topic)) offset

-- `clear_all_topics`
pub clear_all_topics : Broker → Broker
clear_all_topics b = record { events_storage = λ t. []; commands_storage = λ t. [] }

-- `get_published_events`
pub get_published_events : String → Broker → List Message
get_published_events topic b = b.events_storage topic

-- `get_published_commands`
pub get_published_commands : String → Broker → List Message
get_published_commands topic b = b.commands_storage topic
