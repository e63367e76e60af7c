-- ===== src/Delivery/Api.antt =====
-- services/delivery_service/src/api: the handlers of couriers and of deliveries. The framework
-- checks a request's DTO and its role before a handler runs.
use supply_chain_tracker.Prelude.{ℕ, String, Option, none, some, List, map}
use supply_chain_tracker.Outcome.{Outcome, http_exception, attribute_error}
use supply_chain_tracker.Exec.{Exec, pure, or_raise, ◌>>=◌, ◌>>◌}
use supply_chain_tracker.Messaging.Codec.{Codec}
use supply_chain_tracker.Messaging.Base.{Event}
use supply_chain_tracker.Messaging.Events.{
  DomainEvent, courier_assigned, delivery_in_transit, delivery_completed,
}
use supply_chain_tracker.Messaging.Publish.{announced}
use supply_chain_tracker.Delivery.Entity.{Courier, Delivery, mark_delivered}
use supply_chain_tracker.Delivery.Repository.{Fleet, Setup, now, uuid4}
use supply_chain_tracker.Delivery.Service
use supply_chain_tracker.Delivery.Dto.{
  CourierCreateDto, CourierDto, CourierUpdateDto, DeliveryCreateDto, DeliveryDto, DeliveryUpdateDto,
  courier_to_dto, entity_to_dto, create_dto_to_entity, update_entity_from_dto, changed_courier,
  courier_of_dto, update_courier_from_dto,
}

module _ (env : Setup) where
  unfoldable pub create_courier : CourierCreateDto → Exec Fleet CourierDto
  create_courier dto = do
    entity ← courier_of_dto env dto
    created ← Service.create_courier env entity
    pure (courier_to_dto created)

  unfoldable pub get_courier : ℕ → Exec Fleet CourierDto
  get_courier courier_id = do
    found ← Service.find_courier env courier_id
    courier ← or_raise found (http_exception 404)
    pure (courier_to_dto courier)

  unfoldable pub list_couriers : ℕ → ℕ → Exec Fleet (List CourierDto)
  list_couriers limit offset = do
    couriers ← Service.get_all env limit offset
    pure (map courier_to_dto couriers)

  unfoldable pub update_courier : ℕ → CourierUpdateDto → Exec Fleet CourierDto
  update_courier courier_id dto = do
    found ← Service.find_courier env courier_id
    courier ← or_raise found (http_exception 404)
    updated_entity ← update_courier_from_dto env courier dto
    saved ← Service.update_courier env updated_entity
    pure (courier_to_dto saved)

  unfoldable pub delete_courier : ℕ → Exec Fleet (Unit {0})
  delete_courier courier_id = do
    found ← Service.find_courier env courier_id
    or_raise found (http_exception 404)
    Service.delete_courier env courier_id

  unfoldable pub get_delivery : ℕ → Exec Fleet DeliveryDto
  get_delivery delivery_id = do
    found ← Service.get env delivery_id
    delivery ← or_raise found (http_exception 404)
    pure (entity_to_dto delivery)

  unfoldable pub list_deliveries : ℕ → ℕ → Exec Fleet (List DeliveryDto)
  list_deliveries limit offset = do
    deliveries ← Service.get_all_shipments env limit offset
    pure (map entity_to_dto deliveries)

  unfoldable pub delete_delivery : ℕ → Exec Fleet (Unit {0})
  delete_delivery delivery_id = do
    found ← Service.get env delivery_id
    or_raise found (http_exception 404)
    Service.delete env delivery_id

-- A date is the number of its midnight, so that `datetime.combine(date, datetime.min.time())`
-- is that number.
unfoldable pub assigned_event : Option ℕ → Delivery → Exec Fleet DomainEvent
assigned_event estimate delivery = do
  estimated_delivery ← elim estimate [ none ↦ now | some date ↦ pure date ]
  assigned_at ← now
  pure (
      courier_assigned (record {
        delivery_id = delivery.delivery_id;
        courier_id = delivery.courier.courier_id;
        shipment_id = delivery.shipment_id;
        estimated_delivery = estimated_delivery;
        assigned_at = assigned_at;
      }))

unfoldable pub in_transit_event : Delivery → Exec Fleet DomainEvent
in_transit_event saved = do
  updated_at ← now
  pure (
      delivery_in_transit (record {
        delivery_id = saved.delivery_id;
        current_location = "Warehouse";
        latitude = none;
        longitude = none;
        updated_at = some updated_at;
      }))

unfoldable pub completed_event : Delivery → Exec Fleet DomainEvent
completed_event saved = do
  delivered_at ← now
  pure (
      delivery_completed (record {
        delivery_id = saved.delivery_id;
        delivered_at = delivered_at;
        recipient_name = some "Unknown";
        recipient_signature = none;
      }))

-- The changes that the handlers make before they publish.
module _ (env : Setup) where
  unfoldable pub created_delivery : DeliveryCreateDto → Exec Fleet Delivery
  created_delivery dto = do
    found ← Service.find_courier env dto.courier_id
    courier ← or_raise found (http_exception 404)
    entity ← create_dto_to_entity dto courier
    Service.create env entity

  -- the courier that the body names and the delivery does not have yet
  unfoldable pub new_courier : Option ℕ → Exec Fleet (Option Courier)
  new_courier none = pure none
  new_courier (some courier_id) = do
    found ← Service.find_courier env courier_id
    courier ← or_raise found (http_exception 404)
    pure (some courier)

  unfoldable pub updated_delivery : ℕ → DeliveryUpdateDto → Exec Fleet (Option Courier × Delivery)
  updated_delivery delivery_id dto = do
    found ← Service.get env delivery_id
    delivery ← or_raise found (http_exception 404)
    courier ← new_courier (changed_courier dto delivery)
    updated_entity ← update_entity_from_dto delivery dto courier
    saved ← Service.update env updated_entity
    pure (courier, saved)

  -- the delivery is read again after the change
  unfoldable pub started_delivery : ℕ → Exec Fleet Delivery
  started_delivery delivery_id = do
    found ← Service.get env delivery_id
    or_raise found (http_exception 404)
    Service.mark_as_in_transit env delivery_id
    saved ← Service.get env delivery_id
    or_raise saved attribute_error

  -- `today` is `date.today()`
  unfoldable pub completed_delivery : ℕ → ℕ → Exec Fleet Delivery
  completed_delivery today delivery_id = do
    found ← Service.get env delivery_id
    delivery ← or_raise found (http_exception 404)
    t ← now
    Service.update env (mark_delivered t today delivery)

module _ (env : Setup) (c : Codec) (publish : Event → String → Outcome (Unit {0})) where
  abbrev pub announced_delivery :
      Exec Fleet Delivery → (Delivery → Exec Fleet DomainEvent) → Exec Fleet DeliveryDto
  announced_delivery change event =
      announced uuid4 now c publish "delivery-events" change event entity_to_dto

  unfoldable pub create_delivery : DeliveryCreateDto → Exec Fleet DeliveryDto
  create_delivery dto =
      announced_delivery (created_delivery env dto)
        (λ saved. assigned_event saved.estimated_arrival saved)

  -- `if is_courier_changed:` the estimate of the event is the present
  unfoldable pub announce_courier : Option Courier × Delivery → Exec Fleet DeliveryDto
  announce_courier (none, saved) = pure (entity_to_dto saved)
  announce_courier (some courier, saved) = announced_delivery (pure saved) (assigned_event none)

  unfoldable pub update_delivery : ℕ → DeliveryUpdateDto → Exec Fleet DeliveryDto
  update_delivery delivery_id dto = updated_delivery env delivery_id dto >>= announce_courier

  unfoldable pub mark_delivery_in_transit : ℕ → Exec Fleet DeliveryDto
  mark_delivery_in_transit delivery_id =
      announced_delivery (started_delivery env delivery_id) in_transit_event

  unfoldable pub complete_delivery : ℕ → ℕ → Exec Fleet DeliveryDto
  complete_delivery today delivery_id =
      announced_delivery (completed_delivery env today delivery_id) completed_event
