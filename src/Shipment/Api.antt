-- ===== src/Shipment/Api.antt =====
-- services/shipment_service/src/api: the handlers of shipments, over the service's port. The
-- framework checks a request's DTO and its role before a handler runs.
use supply_chain_tracker.Prelude.{ℕ, String, List, map}
use supply_chain_tracker.Outcome.{Outcome, shipment_not_found}
use supply_chain_tracker.Exec.{Exec, pure, or_raise, ◌>>=◌, ◌>>◌}
use supply_chain_tracker.Messaging.Value.{nil}
use supply_chain_tracker.Messaging.Codec.{Codec}
use supply_chain_tracker.Messaging.Base.{Event}
use supply_chain_tracker.Messaging.Events.{
  DomainEvent, shipment_created, shipment_updated, shipment_cancelled,
}
use supply_chain_tracker.Messaging.Publish.{announced}
use supply_chain_tracker.Shipment.Entity.{value, Shipment}
use supply_chain_tracker.Shipment.Port.{Port}
use supply_chain_tracker.Shipment.Service
use supply_chain_tracker.Shipment.Dto.{
  ShipmentCreateDto, ShipmentUpdateDto, ShipmentDto, entity_to_dto, create_dto_to_entity,
  update_entity_from_dto,
}

module _ {S : Type 0} (port : Port S) (uuid4 : Exec S ℕ) where
  -- The changes that the handlers make before they publish, and their domain events.
  unfoldable pub created_shipment : ShipmentCreateDto → Exec S Shipment
  created_shipment dto = do entity ← create_dto_to_entity port uuid4 dto; Service.create port entity

  unfoldable pub updated_shipment : ℕ → ShipmentUpdateDto → Exec S Shipment
  updated_shipment shipment_id dto = do
    found ← Service.get port shipment_id
    shipment ← or_raise found shipment_not_found
    updated_entity ← update_entity_from_dto port uuid4 shipment dto
    Service.update port updated_entity

  unfoldable pub deleted_shipment : ℕ → Exec S (Unit {0})
  deleted_shipment shipment_id = do
    found ← Service.get port shipment_id
    or_raise found shipment_not_found
    Service.delete port shipment_id

  unfoldable pub cancelled_event : ℕ → Exec S DomainEvent
  cancelled_event shipment_id = do
    cancelled_at ← port.now
    pure (
        shipment_cancelled (record {
          shipment_id = shipment_id;
          reason = "User requested deletion";
          cancelled_at = cancelled_at;
        }))

abbrev pub created_event : Shipment → DomainEvent
created_event saved = shipment_created (record {
  shipment_id = saved.shipment_id;
  origin = saved.origin.city;
  destination = saved.destination.city;
  items = nil;
})

abbrev pub updated_event : Shipment → DomainEvent
updated_event saved = shipment_updated (record {
  shipment_id = saved.shipment_id;
  status = value saved.status;
  updated_at = saved.updated_at;
})

module _ {S : Type 0} (port : Port S) (uuid4 : Exec S ℕ) (c : Codec)
    (publish : Event → String → Outcome (Unit {0})) where
  unfoldable pub create_shipment : ShipmentCreateDto → Exec S ShipmentDto
  create_shipment dto =
      announced uuid4 port.now c publish "shipment-events" (created_shipment port uuid4 dto)
        (λ saved. pure (created_event saved)) (entity_to_dto c)

  unfoldable pub get_shipment : ℕ → Exec S ShipmentDto
  get_shipment shipment_id = do
    found ← Service.get port shipment_id
    shipment ← or_raise found shipment_not_found
    pure (entity_to_dto c shipment)

  unfoldable pub list_shipments : ℕ → ℕ → Exec S (List ShipmentDto)
  list_shipments limit offset = do
    shipments ← Service.get_all port limit offset
    pure (map (entity_to_dto c) shipments)

  -- a change, and the event ShipmentUpdated of what was saved
  unfoldable pub announced_update : Exec S Shipment → Exec S ShipmentDto
  announced_update change =
      announced uuid4 port.now c publish "shipment-events" change
        (λ saved. pure (updated_event saved)) (entity_to_dto c)

  unfoldable pub update_shipment : ℕ → ShipmentUpdateDto → Exec S ShipmentDto
  update_shipment shipment_id dto = announced_update (updated_shipment port uuid4 shipment_id dto)

  unfoldable pub delete_shipment : ℕ → Exec S (Unit {0})
  delete_shipment shipment_id =
      announced uuid4 port.now c publish "shipment-events" (deleted_shipment port uuid4 shipment_id)
        (λ u. cancelled_event port uuid4 shipment_id) (λ u. u)

  unfoldable pub mark_shipment_received : ℕ → Exec S ShipmentDto
  mark_shipment_received shipment_id = announced_update (Service.mark_as_received port shipment_id)

  unfoldable pub mark_shipment_ready : ℕ → Exec S ShipmentDto
  mark_shipment_ready shipment_id =
      announced_update (Service.mark_as_ready_for_delivery port shipment_id)

  unfoldable pub mark_shipment_in_transit : ℕ → Exec S ShipmentDto
  mark_shipment_in_transit shipment_id =
      announced_update (Service.mark_as_in_transit port shipment_id)

  -- `today` is `date.today()`
  unfoldable pub mark_shipment_delivered : ℕ → ℕ → Exec S ShipmentDto
  mark_shipment_delivered today shipment_id =
      announced_update (Service.mark_as_delivered port shipment_id today)

  unfoldable pub mark_shipment_completed : ℕ → Exec S ShipmentDto
  mark_shipment_completed shipment_id =
      announced_update (Service.mark_as_completed port shipment_id)

  unfoldable pub list_active_shipments : Exec S (List ShipmentDto)
  list_active_shipments = do
    shipments ← Service.get_active_shipments port
    pure (map (entity_to_dto c) shipments)

  unfoldable pub list_in_transit_shipments : Exec S (List ShipmentDto)
  list_in_transit_shipments = do
    shipments ← Service.get_in_transit_shipments port
    pure (map (entity_to_dto c) shipments)
