-- ===== src/Tests/Messages.antt =====
-- Messages on the in-memory queue.
use supply_chain_tracker.Prelude.{◌≡◌, none, [], ◌∷◌, length, ◌+◌}
use supply_chain_tracker.Outcome.{returns}
use supply_chain_tracker.Messaging.Base.{event_from_dict, to_dict}
use supply_chain_tracker.Messaging.Memory.{Broker, consume_command_turn}
use supply_chain_tracker.Messaging.RoundTrip.{
  event_from_dict-to_dict, publish_commands, consume_command_turn-publish_commands,
}
use supply_chain_tracker.Tests.Fixtures.{codec, delivery_failed, empty_broker, cancel, release}

-- one command is there already, and has been read
abbrev queue : Broker
queue = publish_commands codec "commands" ((release, 3) ∷ []) empty_broker

consume_command_turn-publish_commands_example :
    consume_command_turn codec "commands"
      (length (queue.commands_storage "commands"))
      (publish_commands codec "commands" ((cancel, 5) ∷ (release, 6) ∷ []) queue)
    ≡ record {
      yielded = cancel ∷ release ∷ [];
      offset = length (queue.commands_storage "commands") + 2;
      failure = none;
    }
consume_command_turn-publish_commands_example =
    consume_command_turn-publish_commands codec "commands" ((cancel, 5) ∷ (release, 6) ∷ []) queue

event_from_dict-to_dict_example :
    event_from_dict codec (to_dict codec delivery_failed) ≡ returns delivery_failed
event_from_dict-to_dict_example = event_from_dict-to_dict codec delivery_failed
