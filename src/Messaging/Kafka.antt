-- ===== src/Messaging/Kafka.antt =====
-- libs/libs/messaging/kafka.py: the publishing half of KafkaEventQueueAdapter, and its consumers
-- over the messages that the client's consumer yields. The client (aiokafka) is a parameter: what
-- it answers to each call. Logging is left out.
use supply_chain_tracker.Prelude.{
  ℕ, zero, suc, ◌+◌, ◌*◌, ◌^◌, String, Bool, true, false, Option, none, some, List, [], ◌∷◌, ◌++◌,
  ◌==◌, if◌then◌else◌,
}
use supply_chain_tracker.Outcome.{Error, returns, raises, kafka_error, key_error, value_error}
use supply_chain_tracker.Exec.{Exec, for_each, ◌>>◌}
use supply_chain_tracker.Messaging.Value.{Fields}
use supply_chain_tracker.Messaging.Codec.{Codec}
use supply_chain_tracker.Messaging.Base.{
  Event, Command, to_dict, event_from_dict, command_from_dict,
}
use supply_chain_tracker.Messaging.Memory.{command_dict}

pub record Record : Type 0 where
  pub topic : String
  pub value : Fields
  pub key : String

-- `answers n` is what the client's call number n comes to: none where the record is acknowledged,
-- and otherwise the exception. `slept` is the time slept in all, in a unit of which
-- `initial_backoff` is a whole number, such as a millisecond; `has_producer` is whether
-- `self._producer` is set.
pub record Kafka : Type 0 where
  pub answers : ℕ → Option Error
  pub calls : ℕ
  pub log : List Record
  pub slept : ℕ
  pub has_producer : Bool

-- `producer.send_and_wait(topic, value=value, key=key)`
unfoldable pub send_and_wait : Record → Exec Kafka (Unit {0})
send_and_wait r s = elim (s.answers s.calls) [
  | none ↦ (returns tt, record s { calls = suc s.calls; log = s.log ++ r ∷ [] })
  | some e ↦ (raises e, record s { calls = suc s.calls })
]

-- `_get_producer`; a new producer is started, which is taken to succeed
unfoldable pub get_producer : Exec Kafka (Unit {0})
get_producer s = (returns tt, record s { has_producer = true })

module _ (max_retries initial_backoff : ℕ) where
  -- The loop from the attempt `done + 1` on, with the attempts that are left.
  unfoldable pub attempts : Record → ℕ → ℕ → Exec Kafka (Unit {0})
  attempts r done zero s = (returns tt, s)
  attempts r done (suc left) s =
      let (result, s') = send_and_wait r s in
      let again =
        attempts r (suc done) left (record s' { slept = s'.slept + initial_backoff * 2 ^ done }) in
      elim result [
        | returns u ↦ (returns tt, s')
        | raises e ↦ elim e [
          | kafka_error ↦ if suc done == max_retries then (raises kafka_error, s') else again
          | other ↦ (raises other, s')
        ]
      ]

  unfoldable pub send_with_retry : String → Fields → String → Exec Kafka (Unit {0})
  send_with_retry topic value key = do
    get_producer
    attempts (record { topic = topic; value = value; key = key }) 0 max_retries

  unfoldable pub publish_event : Codec → Event → List String → Exec Kafka (Unit {0})
  publish_event c event topics =
      for_each topics
        (λ topic. send_with_retry topic (to_dict c event) (c.show_uuid event.aggregate_id))

  unfoldable pub publish_command : Codec → Command → List String → Exec Kafka (Unit {0})
  publish_command c command topics =
      for_each topics
        (λ topic. send_with_retry topic (command_dict c command) (c.show_uuid command.aggregate_id))

unfoldable pub close : Exec Kafka (Unit {0})
close s = (returns tt, record s { has_producer = false })

-- The loop of `consume_event` over the records of the client's consumer, each decoded as JSON, or
-- none where that fails: what it yields. Any exception of `from_dict` is logged, and the record
-- skipped.
unfoldable pub consume_event : Codec → List (Option Fields) → List Event
consume_event c [] = []
consume_event c (none ∷ records) = consume_event c records
consume_event c (some d ∷ records) =
    let rest = consume_event c records in
    elim (event_from_dict c d) [ returns event ↦ event ∷ rest | raises e ↦ rest ]

-- What a consumer yields, and the exception that ends it, if any.
pub record Consumed (M : Type 0) : Type 0 where
  pub yielded : List M
  pub failure : Option Error

-- The loop of `consume_command`: a KeyError or a ValueError is logged and the record skipped, any
-- other exception ends the loop.
unfoldable pub consume_command : Codec → List (Option Fields) → Consumed Command
consume_command c [] = record { yielded = []; failure = none }
consume_command c (none ∷ records) = consume_command c records
consume_command c (some d ∷ records) =
    let rest = consume_command c records in
    elim (command_from_dict c d) [
      | returns command ↦ record rest { yielded = command ∷ rest.yielded }
      | raises e ↦ elim e [
        | key_error ↦ rest
        | value_error ↦ rest
        | other ↦ record { yielded = []; failure = some other }
      ]
    ]
