-- ===== src/Messaging/Consumers.antt =====
-- libs/libs/messaging/memory.py: the life of a consumer of commands, with the flags that all the
-- consumers of a process share. A worker consumes one topic. A consumer's sleep is left out.
use Prim.Native.String.{◌++◌ as ◌+++◌}
use supply_chain_tracker.Prelude.{
  ℕ, String, Bool, true, false, none, some, List, [], str_eq, if◌then◌else◌,
}
use supply_chain_tracker.Messaging.Codec.{Codec}
use supply_chain_tracker.Messaging.Base.{Command}
use supply_chain_tracker.Messaging.Memory.{Broker, Turn, consume_command_turn}

-- `_consumers_running` is a flag for each key, shared like the storages.
pub record Process : Type 0 where
  pub broker : Broker
  pub consumers_running : String → Bool

-- A consumer that is to look from an offset on, or one whose generator has ended.
pub data Consumer : Type 0 where
  reading : ℕ → Consumer
  ended : Consumer

-- `hash_of` is the hash of the tuple of a topic, as a text.
module _ (c : Codec) (hash_of : String → String) where
  abbrev pub consumer_key : String → String
  consumer_key topic = "command_consumer_" +++ hash_of topic

  abbrev pub set_running : String → Bool → Process → Process
  set_running topic b s = record s {
    consumers_running =
        λ key. if str_eq (consumer_key topic) key then b else s.consumers_running key;
  }

  -- up to the loop
  unfoldable pub start_consumer : String → Process → Consumer × Process
  start_consumer topic s = (reading 0, set_running topic true s)

  -- `finally`, where the generator is closed or its task is cancelled
  unfoldable pub stop_consumer : String → Consumer → Process → Consumer × Process
  stop_consumer topic ended s = (ended, s)
  stop_consumer topic (reading offset) s = (ended, set_running topic false s)

  -- what a turn over the topic leads to
  abbrev pub after_turn : String → Turn Command → Process → List Command × Consumer × Process
  after_turn topic t s = elim t.failure [
    | none ↦ (t.yielded, reading t.offset, s)
    | some e ↦ (t.yielded, ended, set_running topic false s)
  ]

  -- One pass of the `while`: the commands yielded, and where the consumer is afterwards.
  unfoldable pub pass : String → Consumer → Process → List Command × Consumer × Process
  pass topic ended s = ([], ended, s)
  pass topic (reading offset) s =
      if s.consumers_running (consumer_key topic)
      then after_turn topic (consume_command_turn c topic offset s.broker) s
      else ([], ended, set_running topic false s)
