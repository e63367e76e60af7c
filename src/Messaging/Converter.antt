-- ===== src/Messaging/Converter.antt =====
-- libs/libs/messaging/events.py: `asdict`, and DomainEventConverter.
use supply_chain_tracker.Prelude.{ℕ, String, Option, none, some}
use supply_chain_tracker.Messaging.Value.{
  Value, Items, Fields, null, int, float, text, uuid, datetime, list, dict, nil, cons, end, field,
}
use supply_chain_tracker.Messaging.Events.{
  DomainEvent, shipment_created, shipment_updated, shipment_cancelled, shipment_dispatched,
  inventory_reserved, inventory_released, inventory_insufficient, inventory_updated,
  courier_assigned, courier_unassigned, delivery_started, delivery_in_transit, delivery_completed,
  delivery_failed, blockchain_recorded, blockchain_verified, saga_started, saga_completed,
  saga_failed, saga_compensating,
}
use supply_chain_tracker.Messaging.Codec.{Codec}
use supply_chain_tracker.Messaging.Base.{Event}

abbrev pub optional {ℓ} : {A : Type ℓ} → (A → Value) → Option A → Value
optional f none = null
optional f (some a) = f a

-- `asdict(domain_event)`
abbrev pub asdict : DomainEvent → Fields
asdict (shipment_created e) = field "shipment_id" (uuid e.shipment_id) (
    field "origin" (text e.origin)
      (field "destination" (text e.destination) (field "items" (list e.items) end)))
asdict (shipment_updated e) =
    field "shipment_id" (uuid e.shipment_id)
      (field "status" (text e.status) (field "updated_at" (datetime e.updated_at) end))
asdict (shipment_cancelled e) =
    field "shipment_id" (uuid e.shipment_id)
      (field "reason" (text e.reason) (field "cancelled_at" (datetime e.cancelled_at) end))
asdict (shipment_dispatched e) = field "shipment_id" (uuid e.shipment_id) (
    field "warehouse_id" (uuid e.warehouse_id)
      (field "dispatched_at" (datetime e.dispatched_at) end))
asdict (inventory_reserved e) = field "warehouse_id" (uuid e.warehouse_id) (
    field "shipment_id" (uuid e.shipment_id)
      (field "items" (list e.items) (field "reserved_at" (datetime e.reserved_at) end)))
asdict (inventory_released e) = field "warehouse_id" (uuid e.warehouse_id) (
    field "shipment_id" (uuid e.shipment_id) (
      field "items" (list e.items)
        (field "released_at" (datetime e.released_at) (field "reason" (text e.reason) end))))
asdict (inventory_insufficient e) =
    field "warehouse_id" (uuid e.warehouse_id)
      (field "shipment_id" (uuid e.shipment_id) (field "missing_items" (list e.missing_items) end))
asdict (inventory_updated e) = field "warehouse_id" (uuid e.warehouse_id) (
    field "item_id" (text e.item_id)
      (field "new_quantity" (int e.new_quantity) (field "updated_at" (datetime e.updated_at) end)))
asdict (courier_assigned e) = field "delivery_id" (uuid e.delivery_id) (
    field "courier_id" (uuid e.courier_id) (
      field "shipment_id" (uuid e.shipment_id) (
        field "estimated_delivery" (datetime e.estimated_delivery)
          (field "assigned_at" (datetime e.assigned_at) end))))
asdict (courier_unassigned e) = field "delivery_id" (uuid e.delivery_id) (
    field "courier_id" (uuid e.courier_id)
      (field "reason" (text e.reason) (field "unassigned_at" (datetime e.unassigned_at) end)))
asdict (delivery_started e) = field "delivery_id" (uuid e.delivery_id) (
    field "courier_id" (uuid e.courier_id) (
      field "pickup_location" (text e.pickup_location)
        (field "started_at" (datetime e.started_at) end)))
asdict (delivery_in_transit e) = field "delivery_id" (uuid e.delivery_id) (
    field "current_location" (text e.current_location) (
      field "latitude" (optional float e.latitude) (
        field "longitude" (optional float e.longitude)
          (field "updated_at" (optional datetime e.updated_at) end))))
asdict (delivery_completed e) = field "delivery_id" (uuid e.delivery_id) (
    field "delivered_at" (datetime e.delivered_at) (
      field "recipient_name" (optional text e.recipient_name)
        (field "recipient_signature" (optional text e.recipient_signature) end)))
asdict (delivery_failed e) = field "delivery_id" (uuid e.delivery_id) (
    field "reason" (text e.reason) (
      field "failed_at" (datetime e.failed_at)
        (field "retry_scheduled" (optional datetime e.retry_scheduled) end)))
asdict (blockchain_recorded e) = field "record_id" (uuid e.record_id) (
    field "shipment_id" (uuid e.shipment_id) (
      field "transaction_hash" (text e.transaction_hash) (
        field "block_number" (optional int e.block_number)
          (field "recorded_at" (optional datetime e.recorded_at) end))))
asdict (blockchain_verified e) = field "record_id" (uuid e.record_id) (
    field "shipment_id" (uuid e.shipment_id) (
      field "transaction_hash" (text e.transaction_hash) (
        field "verified_at" (datetime e.verified_at)
          (field "confirmations" (int e.confirmations) end))))
asdict (saga_started e) = field "saga_id" (uuid e.saga_id) (
    field "saga_type" (text e.saga_type)
      (field "initiated_by" (text e.initiated_by) (field "started_at" (datetime e.started_at) end)))
asdict (saga_completed e) =
    field "saga_id" (uuid e.saga_id)
      (field "saga_type" (text e.saga_type) (field "completed_at" (datetime e.completed_at) end))
asdict (saga_failed e) = field "saga_id" (uuid e.saga_id) (
    field "saga_type" (text e.saga_type)
      (field "error_message" (text e.error_message) (field "failed_at" (datetime e.failed_at) end)))
asdict (saga_compensating e) = field "saga_id" (uuid e.saga_id) (
    field "saga_type" (text e.saga_type) (
      field "failed_step" (text e.failed_step)
        (field "compensating_at" (datetime e.compensating_at) end)))

-- `_EVENT_TYPE_MAP`: the event type, the aggregate type, and the value of the identifying field
abbrev pub event_type : DomainEvent → String
event_type (shipment_created e) = "shipment.created"
event_type (shipment_updated e) = "shipment.updated"
event_type (shipment_cancelled e) = "shipment.cancelled"
event_type (shipment_dispatched e) = "shipment.dispatched"
event_type (inventory_reserved e) = "inventory.reserved"
event_type (inventory_released e) = "inventory.released"
event_type (inventory_insufficient e) = "inventory.insufficient"
event_type (inventory_updated e) = "inventory.updated"
event_type (courier_assigned e) = "courier.assigned"
event_type (courier_unassigned e) = "courier.unassigned"
event_type (delivery_started e) = "delivery.started"
event_type (delivery_in_transit e) = "delivery.in_transit"
event_type (delivery_completed e) = "delivery.completed"
event_type (delivery_failed e) = "delivery.failed"
event_type (blockchain_recorded e) = "blockchain.recorded"
event_type (blockchain_verified e) = "blockchain.verified"
event_type (saga_started e) = "saga.started"
event_type (saga_completed e) = "saga.completed"
event_type (saga_failed e) = "saga.failed"
event_type (saga_compensating e) = "saga.compensating"

abbrev pub aggregate_type : DomainEvent → String
aggregate_type (shipment_created e) = "shipment"
aggregate_type (shipment_updated e) = "shipment"
aggregate_type (shipment_cancelled e) = "shipment"
aggregate_type (shipment_dispatched e) = "shipment"
aggregate_type (inventory_reserved e) = "warehouse"
aggregate_type (inventory_released e) = "warehouse"
aggregate_type (inventory_insufficient e) = "warehouse"
aggregate_type (inventory_updated e) = "warehouse"
aggregate_type (courier_assigned e) = "delivery"
aggregate_type (courier_unassigned e) = "delivery"
aggregate_type (delivery_started e) = "delivery"
aggregate_type (delivery_in_transit e) = "delivery"
aggregate_type (delivery_completed e) = "delivery"
aggregate_type (delivery_failed e) = "delivery"
aggregate_type (blockchain_recorded e) = "blockchain_record"
aggregate_type (blockchain_verified e) = "blockchain_record"
aggregate_type (saga_started e) = "saga"
aggregate_type (saga_completed e) = "saga"
aggregate_type (saga_failed e) = "saga"
aggregate_type (saga_compensating e) = "saga"

abbrev pub aggregate_id : DomainEvent → ℕ
aggregate_id (shipment_created e) = e.shipment_id
aggregate_id (shipment_updated e) = e.shipment_id
aggregate_id (shipment_cancelled e) = e.shipment_id
aggregate_id (shipment_dispatched e) = e.shipment_id
aggregate_id (inventory_reserved e) = e.warehouse_id
aggregate_id (inventory_released e) = e.warehouse_id
aggregate_id (inventory_insufficient e) = e.warehouse_id
aggregate_id (inventory_updated e) = e.warehouse_id
aggregate_id (courier_assigned e) = e.delivery_id
aggregate_id (courier_unassigned e) = e.delivery_id
aggregate_id (delivery_started e) = e.delivery_id
aggregate_id (delivery_in_transit e) = e.delivery_id
aggregate_id (delivery_completed e) = e.delivery_id
aggregate_id (delivery_failed e) = e.delivery_id
aggregate_id (blockchain_recorded e) = e.record_id
aggregate_id (blockchain_verified e) = e.record_id
aggregate_id (saga_started e) = e.saga_id
aggregate_id (saga_completed e) = e.saga_id
aggregate_id (saga_failed e) = e.saga_id
aggregate_id (saga_compensating e) = e.saga_id

-- `_serialize_payload`: the dictionaries of a list are serialized, its other elements are not
unfoldable mutual
  pub serialize_payload : Codec → Fields → Fields
  serialize_payload c end = end
  serialize_payload c (field key value rest) =
      field key (serialize_value c value) (serialize_payload c rest)

  pub serialize_value : Codec → Value → Value
  serialize_value c (uuid u) = text (c.show_uuid u)
  serialize_value c (datetime t) = text (c.show_time t)
  serialize_value c (list items) = list (serialize_items c items)
  serialize_value c (dict d) = dict (serialize_payload c d)
  serialize_value c null = null
  serialize_value c (int n) = int n
  serialize_value c (float bits) = float bits
  serialize_value c (text s) = text s

  pub serialize_items : Codec → Items → Items
  serialize_items c nil = nil
  serialize_items c (cons (dict d) rest) =
      cons (dict (serialize_payload c d)) (serialize_items c rest)
  serialize_items c (cons null rest) = cons null (serialize_items c rest)
  serialize_items c (cons (int n) rest) = cons (int n) (serialize_items c rest)
  serialize_items c (cons (float bits) rest) = cons (float bits) (serialize_items c rest)
  serialize_items c (cons (text s) rest) = cons (text s) (serialize_items c rest)
  serialize_items c (cons (uuid u) rest) = cons (uuid u) (serialize_items c rest)
  serialize_items c (cons (datetime t) rest) = cons (datetime t) (serialize_items c rest)
  serialize_items c (cons (list items) rest) = cons (list items) (serialize_items c rest)

-- `to_event(domain_event, correlation_id)`, with the identifier and the instant that the fields of
-- `Event` draw by default
unfoldable pub to_event : Codec → ℕ → ℕ → DomainEvent → Option ℕ → Event
to_event c id now e correlation_id = record {
  event_type = event_type e;
  aggregate_id = aggregate_id e;
  aggregate_type = aggregate_type e;
  payload = serialize_payload c (asdict e);
  event_id = id;
  timestamp = now;
  correlation_id = correlation_id;
}
