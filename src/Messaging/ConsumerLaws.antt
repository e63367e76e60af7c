-- ===== src/Messaging/ConsumerLaws.antt =====
-- What the consumers of one topic in one process do to one another.
use supply_chain_tracker.Prelude.{ℕ, String, ◌≡◌, refl, none, List, [], length, arith, ◌+◌, ap}
use text.Mathlib.TextPositions.{eq_refl}
use supply_chain_tracker.Messaging.Codec.{Codec}
use supply_chain_tracker.Messaging.Base.{Command}
use supply_chain_tracker.Messaging.Memory.{Broker, consume_command_turn}
use supply_chain_tracker.Messaging.RoundTrip.{
  publish_commands, sent, consume_command_turn-publish_commands,
}
use supply_chain_tracker.Messaging.Consumers.{
  Process, reading, ended, consumer_key, start_consumer, stop_consumer, pass,
}

module _ (c : Codec) (hash_of : String → String) (topic : String) where
  -- after more commands were published to the topic
  abbrev pub publish_more : List (Command × ℕ) → Process → Process
  publish_more ms s = record s { broker = publish_commands c topic ms s.broker }

  -- Two consumers of one topic in one process, the second wherever it is. Once the first has ended,
  -- the second ends at its next pass and yields nothing, whatever has been published since.
  pass-stop_consumer :
      (offset offset' : ℕ) (ms : List (Command × ℕ)) (s : Process)
      → let s₁ = publish_more ms (stop_consumer c hash_of topic (reading offset) s).1 in
        let result = pass c hash_of topic (reading offset') s₁ in
        (result.0 ≡ []) × (result.1 ≡ ended)
  unfolding pass stop_consumer
  pass-stop_consumer offset offset' ms s = rw (eq_refl (consumer_key c hash_of topic)) (refl, refl)

  all-consumed :
      (ms : List (Command × ℕ)) (b : Broker)
      → b.commands_storage topic ≡ []
      → consume_command_turn c topic 0 (publish_commands c topic ms b)
        ≡ record { yielded = sent ms; offset = 0 + length ms; failure = none }
  all-consumed ms b empty =
      let turn = consume_command_turn-publish_commands c topic ms b in rw empty at turn

  -- A consumer that starts on a topic where nothing was before yields every command that has been
  -- published to it, whatever another consumer has yielded before.
  pass-start_consumer :
      (ms : List (Command × ℕ)) (b : Broker) (s : Process)
      → b.commands_storage topic ≡ []
      → s.broker ≡ publish_commands c topic ms b
      → let (consumer, s') = start_consumer c hash_of topic s in
        let result = pass c hash_of topic consumer s' in
        (result.0 ≡ sent ms) × (result.1 ≡ reading (length ms))
  unfolding pass start_consumer
  pass-start_consumer ms b s empty published =
      rw (eq_refl (consumer_key c hash_of topic), published, all-consumed ms b empty)
        (refl, ap reading (omega arith))
