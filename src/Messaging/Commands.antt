-- ===== src/Messaging/Commands.antt =====
-- libs/libs/messaging/commands.py: the `create` method of each command class. A dataclass draws a
-- fresh `command_id` (`uuid.uuid4`), which is an argument
-- here. A `reason` may be any value: the coordinator hands one on from an event's payload.
use supply_chain_tracker.Prelude.{ℕ, String, some}
use supply_chain_tracker.Messaging.Value.{Value, text, list, Items, end, field}
use supply_chain_tracker.Messaging.Codec.{Codec}
use supply_chain_tracker.Messaging.Base.{Command}

module _ (c : Codec) (command_id : ℕ) where
  pub reserve_inventory : ℕ → ℕ → Items → ℕ → Command
  reserve_inventory shipment_id warehouse_id items saga_id = record {
    command_type = "inventory.reserve";
    aggregate_id = warehouse_id;
    payload =
        field "shipment_id" (text (c.show_uuid shipment_id))
          (field "warehouse_id" (text (c.show_uuid warehouse_id)) (field "items" (list items) end));
    command_id = command_id;
    correlation_id = some saga_id;
  }

  unfoldable pub release_inventory : ℕ → ℕ → Items → ℕ → Value → Command
  release_inventory shipment_id warehouse_id items saga_id reason = record {
    command_type = "inventory.release";
    aggregate_id = warehouse_id;
    payload = field "shipment_id" (text (c.show_uuid shipment_id)) (
        field "warehouse_id" (text (c.show_uuid warehouse_id))
          (field "items" (list items) (field "reason" reason end)));
    command_id = command_id;
    correlation_id = some saga_id;
  }

  pub assign_courier : ℕ → ℕ → ℕ → Command
  assign_courier shipment_id delivery_id saga_id = record {
    command_type = "courier.assign";
    aggregate_id = delivery_id;
    payload =
        field "delivery_id" (text (c.show_uuid delivery_id))
          (field "shipment_id" (text (c.show_uuid shipment_id)) end);
    command_id = command_id;
    correlation_id = some saga_id;
  }

  unfoldable pub unassign_courier : ℕ → ℕ → Value → Command
  unassign_courier delivery_id saga_id reason = record {
    command_type = "courier.unassign";
    aggregate_id = delivery_id;
    payload = field "delivery_id" (text (c.show_uuid delivery_id)) (field "reason" reason end);
    command_id = command_id;
    correlation_id = some saga_id;
  }

  pub create_shipment : ℕ → String → String → Items → ℕ → Command
  create_shipment shipment_id origin destination items saga_id = record {
    command_type = "shipment.create";
    aggregate_id = shipment_id;
    payload = field "shipment_id" (text (c.show_uuid shipment_id)) (
        field "origin" (text origin)
          (field "destination" (text destination) (field "items" (list items) end)));
    command_id = command_id;
    correlation_id = some saga_id;
  }

  unfoldable pub cancel_shipment : ℕ → Value → ℕ → Command
  cancel_shipment shipment_id reason saga_id = record {
    command_type = "shipment.cancel";
    aggregate_id = shipment_id;
    payload = field "shipment_id" (text (c.show_uuid shipment_id)) (field "reason" reason end);
    command_id = command_id;
    correlation_id = some saga_id;
  }

  pub record_transaction : ℕ → ℕ → String → ℕ → Command
  record_transaction record_id shipment_id data_hash saga_id = record {
    command_type = "blockchain.record";
    aggregate_id = record_id;
    payload = field "record_id" (text (c.show_uuid record_id)) (
        field "shipment_id" (text (c.show_uuid shipment_id))
          (field "data_hash" (text data_hash) end));
    command_id = command_id;
    correlation_id = some saga_id;
  }

  pub invalidate_blockchain_record : ℕ → Value → ℕ → Command
  invalidate_blockchain_record record_id reason saga_id = record {
    command_type = "blockchain.invalidate";
    aggregate_id = record_id;
    payload = field "record_id" (text (c.show_uuid record_id)) (field "reason" reason end);
    command_id = command_id;
    correlation_id = some saga_id;
  }
