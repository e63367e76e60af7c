-- ===== src/Shipment/Entity.antt =====
-- services/shipment_service/src/domain: shipments and their statuses.
use supply_chain_tracker.Prelude.{ℕ, String, Bool, Option, some, str_eq}

pub data ShipmentStatus : Type 0 where
  created received ready_for_delivery in_transit delivered completed : ShipmentStatus

-- `status.value`
abbrev pub value : ShipmentStatus → String
value created = "created"
value received = "received"
value ready_for_delivery = "ready_for_delivery"
value in_transit = "in_transit"
value delivered = "delivered"
value completed = "completed"

-- `==` of members of a `str` enumeration
abbrev pub same_status : ShipmentStatus → ShipmentStatus → Bool
same_status a b = str_eq (value a) (value b)

pub record Location : Type 0 where
  pub country : String
  pub city : String
  pub address : String

-- Dates and instants are numbers on one scale.
pub record Shipment : Type 0 where
  pub origin : Location
  pub destination : Location
  pub departure_date : ℕ
  pub arrival_date : Option ℕ
  pub shipment_id : ℕ
  pub status : ShipmentStatus
  pub created_at : ℕ
  pub updated_at : ℕ

-- `_touch` reads the clock once; `now` is that reading.
abbrev pub touch : ℕ → Shipment → Shipment
touch now shipment = record shipment { updated_at = now }

abbrev pub update_status : ℕ → ShipmentStatus → Shipment → Shipment
update_status now new_status shipment = touch now (record shipment { status = new_status })

abbrev pub mark_delivered : ℕ → ℕ → Shipment → Shipment
mark_delivered now arrival_date shipment =
    update_status now delivered (record shipment { arrival_date = some arrival_date })
