-- ===== src/Shipment/Dto.antt =====
-- services/shipment_service/src/api/dto and mappers: the DTOs of shipments and ShipmentMapper.
use supply_chain_tracker.Prelude.{
  ℕ, String, Bool, true, false, Option, none, some, if◌then◌else◌, str_eq,
}
use supply_chain_tracker.Outcome.{Outcome, returns, raises, timestamp_error, value_error}
use supply_chain_tracker.Exec.{Exec, pure, lift, ◌>>=◌}
use supply_chain_tracker.Messaging.Codec.{Codec}
use supply_chain_tracker.Shipment.Entity.{
  ShipmentStatus, created, received, ready_for_delivery, in_transit, delivered, completed, value,
  Location, Shipment,
}
use supply_chain_tracker.Shipment.Port.{Port}

-- The body's locations are LocationDTOs, which have the fields of a Location and are stored as they
-- are.
pub record ShipmentCreateDto : Type 0 where
  pub origin : Location
  pub destination : Location
  pub departure_date : ℕ

pub record ShipmentUpdateDto : Type 0 where
  pub origin : Option Location
  pub destination : Option Location
  pub departure_date : Option ℕ
  pub arrival_date : Option ℕ
  pub status : Option String

pub record ShipmentDto : Type 0 where
  pub shipment_id : ℕ
  pub origin : Location
  pub destination : Location
  pub departure_date : ℕ
  pub arrival_date : Option ℕ
  pub status : String
  pub created_at : String
  pub updated_at : String

-- `ShipmentMapper.entity_to_dto`
abbrev pub entity_to_dto : Codec → Shipment → ShipmentDto
entity_to_dto c entity = record {
  shipment_id = entity.shipment_id;
  origin = entity.origin;
  destination = entity.destination;
  departure_date = entity.departure_date;
  arrival_date = entity.arrival_date;
  status = value entity.status;
  created_at = c.show_time entity.created_at;
  updated_at = c.show_time entity.updated_at;
}

-- `ShipmentStatus(text)`
unfoldable pub shipment_status : String → Outcome ShipmentStatus
shipment_status text =
    if str_eq text "created"
    then returns created
    else if str_eq text "received"
    then returns received
    else if str_eq text "ready_for_delivery"
    then returns ready_for_delivery
    else if str_eq text "in_transit"
    then returns in_transit
    else if str_eq text "delivered"
    then returns delivered
    else if str_eq text "completed"
    then returns completed
    else raises value_error

-- libs/libs/value_objects/timestamp.py: `Timestamp(t)`, where `is_utc` tells whether the time zone
-- of `t` is UTC
unfoldable pub timestamp : Bool → ℕ → Outcome ℕ
timestamp is_utc t = if is_utc then returns t else raises timestamp_error

abbrev pub or_old {ℓ} : {A : Type ℓ} → Option A → A → A
or_old none old = old
or_old (some new) old = new

abbrev pub or_old_some {ℓ} : {A : Type ℓ} → Option A → Option A → Option A
or_old_some none old = old
or_old_some (some new) old = some new

-- `ShipmentStatus(dto.status)` where the body has one
unfoldable pub new_status : Option String → ShipmentStatus → Outcome ShipmentStatus
new_status none old = returns old
new_status (some text) old = shipment_status text

module _ {S : Type 0} (port : Port S) (uuid4 : Exec S ℕ) where
  -- `ShipmentMapper.create_dto_to_entity`: the defaults of the entity draw the identifier and read
  -- the clock twice, in UTC
  unfoldable pub create_dto_to_entity : ShipmentCreateDto → Exec S Shipment
  create_dto_to_entity dto = do
    id ← uuid4
    t ← port.now
    created_at ← lift (timestamp true t)
    u ← port.now
    updated_at ← lift (timestamp true u)
    pure (record {
      origin = dto.origin;
      destination = dto.destination;
      departure_date = dto.departure_date;
      arrival_date = none;
      shipment_id = id;
      status = created;
      created_at = created_at;
      updated_at = updated_at;
    })

  -- `ShipmentMapper.update_entity_from_dto`: `datetime.utcnow()` has no time zone
  unfoldable pub update_entity_from_dto : Shipment → ShipmentUpdateDto → Exec S Shipment
  update_entity_from_dto entity dto = do
    status ← lift (new_status dto.status entity.status)
    t ← port.now
    updated_at ← lift (timestamp false t)
    pure (record entity {
      origin = or_old dto.origin entity.origin;
      destination = or_old dto.destination entity.destination;
      departure_date = or_old dto.departure_date entity.departure_date;
      arrival_date = or_old_some dto.arrival_date entity.arrival_date;
      status = status;
      updated_at = updated_at;
    })
