-- ===== src/Tests/Events.antt =====
-- Domain events as messages, and the Kafka client that fails twice.
use supply_chain_tracker.Prelude.{◌≡◌, refl, none, some, [], ◌∷◌, ltb, true, if◌then◌else◌, arith}
use supply_chain_tracker.Outcome.{returns, raises, kafka_error}
use supply_chain_tracker.Messaging.Value.{text, uuid, dict, nil, cons, end, field}
use supply_chain_tracker.Messaging.Events.{DomainEvent, inventory_reserved}
use supply_chain_tracker.Messaging.Converter.{to_event}
use supply_chain_tracker.Messaging.EventLaws.{fields_json, plain_fields, to_event-is_json}
use supply_chain_tracker.Messaging.Kafka.{Kafka, send_with_retry}
use supply_chain_tracker.Messaging.KafkaLaws.{
  Refuses, send_with_retry-success, send_with_retry-exhausted,
}
use supply_chain_tracker.Tests.Fixtures.{codec}

abbrev reserved : DomainEvent
reserved = inventory_reserved (record {
  warehouse_id = 3;
  shipment_id = 2;
  items = cons (dict (field "item_id" (uuid 6) end)) (cons (text "bolts") nil);
  reserved_at = 40;
})

to_event-is_json_example : fields_json (to_event codec 90 41 reserved (some 1)).payload ≡ true
unfolding plain_fields
to_event-is_json_example = to_event-is_json codec 90 41 reserved (some 1) refl

-- a client that fails its first two calls
abbrev flaky : Kafka
flaky = record {
  answers = λ n. if ltb n 2 then some kafka_error else none;
  calls = 0;
  log = [];
  slept = 0;
  has_producer = true;
}

flaky-Refuses : Refuses flaky.answers 0 2
unfolding Refuses
flaky-Refuses i i<2 = ground arith

send_with_retry-success_example : send_with_retry 5 500 "saga-events" end "k" flaky ≡ (
  returns tt,
  record flaky {
    calls = 3;
    log = record { topic = "saga-events"; value = end; key = "k" } ∷ [];
    slept = 1500;
  },
)
send_with_retry-success_example =
    send_with_retry-success 5 500 "saga-events" "k" end 2 flaky (omega arith) flaky-Refuses refl

send_with_retry-exhausted_example :
    send_with_retry 2 500 "saga-events" end "k" flaky
    ≡ (raises kafka_error, record flaky { calls = 2; slept = 500 })
send_with_retry-exhausted_example =
    send_with_retry-exhausted 2 500 "saga-events" "k" end 1 flaky refl flaky-Refuses
