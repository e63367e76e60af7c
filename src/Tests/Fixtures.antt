-- ===== src/Tests/Fixtures.antt =====
-- Concrete parameters: a codec that writes a number in unary, and a coordinator on the in-memory
-- queue with one saga of each kind.
use supply_chain_tracker.Prelude.{ap, none, some, [], ◌∷◌, ◌+◌}
use supply_chain_tracker.Tests.Unary.{show, parse, depth-tally, show_nonempty}
use supply_chain_tracker.Outcome.{returns}
use supply_chain_tracker.Messaging.Value.{text, end, field}
use supply_chain_tracker.Messaging.Codec.{Codec}
use supply_chain_tracker.Messaging.Base.{Event, Command}
use supply_chain_tracker.Messaging.Memory.{Broker, publish_command}
use supply_chain_tracker.Saga.Entity.{started, failed, SagaInstance}
use supply_chain_tracker.Saga.Repository.{Coordinator, Setup}

abbrev pub codec : Codec
codec = record {
  show_uuid = show;
  parse_uuid = parse;
  show_time = show;
  parse_time = parse;
  show_other = λ v. "";
  parse-show_uuid = λ n. ap some (depth-tally n);
  parse-show_time = λ n. ap some (depth-tally n);
  show_uuid_nonempty = show_nonempty;
}

abbrev pub env : Setup
env = record {
  codec = codec;
  violation = λ status. none;
  publish_command =
      λ command topic t b. (returns tt, publish_command codec command ((topic, t) ∷ []) b);
}

abbrev pub empty_broker : Broker
empty_broker = record { events_storage = λ topic. []; commands_storage = λ topic. [] }

-- a saga under way, that has reserved in warehouse 3 and has the delivery 4
abbrev pub live : SagaInstance
live = record {
  saga_id = 1;
  saga_type = "shipment_fulfillment";
  shipment_id = 2;
  warehouse_id = some 3;
  delivery_id = some 4;
  status = started;
  started_at = 10;
  updated_at = 11;
  failed_step = none;
  error_message = none;
}

abbrev pub lost : SagaInstance
lost = record live {
  saga_id = 5;
  status = failed;
  failed_step = some "inventory.insufficient";
  error_message = some "Compensation triggered by inventory.insufficient";
}

abbrev pub coordinator : Coordinator
coordinator = record {
  sagas = lost ∷ live ∷ [];
  broker = empty_broker;
  clock = λ k. 100 + k;
  ticks = 0;
  uuids = λ k. 50 + k;
  drawn = 0;
}

abbrev pub delivery_failed : Event
delivery_failed = record {
  event_type = "delivery.failed";
  aggregate_id = 4;
  aggregate_type = "delivery";
  payload = field "reason" (text "no vehicle") end;
  event_id = 90;
  timestamp = 99;
  correlation_id = some 1;
}

abbrev pub release : Command
release = record {
  command_type = "inventory.release";
  aggregate_id = 3;
  payload =
      field "shipment_id" (text (show 2))
        (field "warehouse_id" (text (show 3)) (field "reason" (text "rollback") end));
  command_id = 60;
  correlation_id = some 1;
}

abbrev pub cancel : Command
cancel = record {
  command_type = "shipment.cancel";
  aggregate_id = 2;
  payload = field "shipment_id" (text (show 2)) (field "reason" (text "rollback") end);
  command_id = 61;
  correlation_id = some 1;
}

abbrev pub unassign : Command
unassign = record {
  command_type = "courier.unassign";
  aggregate_id = 4;
  payload = field "reason" (text "no vehicle") end;
  command_id = 62;
  correlation_id = some 1;
}
