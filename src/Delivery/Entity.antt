-- ===== src/Delivery/Entity.antt =====
-- services/delivery_service/src/domain: couriers, deliveries and their value objects.
use supply_chain_tracker.Prelude.{ℕ, String, Bool, Option, some, ltb, str_eq, if◌then◌else◌}
use supply_chain_tracker.Outcome.{Outcome, returns, raises, value_error}

pub data DeliveryStatus : Type 0 where
  assigned in_transit delivered confirmed : DeliveryStatus

-- `status.value`
abbrev pub value : DeliveryStatus → String
value assigned = "assigned"
value in_transit = "in_transit"
value delivered = "delivered"
value confirmed = "confirmed"

-- `status == DeliveryStatus.DELIVERED`, and so for CONFIRMED
abbrev pub is_delivered : DeliveryStatus → Bool
is_delivered status = str_eq (value status) "delivered"

abbrev pub is_confirmed : DeliveryStatus → Bool
is_confirmed status = str_eq (value status) "confirmed"

pub record FullName : Type 0 where
  pub value : String

pub record ContactInfo : Type 0 where
  pub value : String

-- The value objects look at `len(value.strip())`, which is a parameter: an empty value and a value
-- of spaces have the length 0. Their errors are ValueErrors.
unfoldable pub full_name : (String → ℕ) → String → Outcome FullName
full_name stripped_len v =
    if ltb (stripped_len v) 2 then raises value_error else returns (record { value = v })

unfoldable pub contact_info : (String → ℕ) → String → Outcome ContactInfo
contact_info stripped_len v =
    if ltb (stripped_len v) 5 then raises value_error else returns (record { value = v })

pub record Courier : Type 0 where
  pub courier_id : ℕ
  pub name : FullName
  pub contact_info : ContactInfo

abbrev pub update_contact : ContactInfo → Courier → Courier
update_contact new_contact courier = record courier { contact_info = new_contact }

-- Dates and instants are numbers on one scale.
pub record Delivery : Type 0 where
  pub delivery_id : ℕ
  pub shipment_id : ℕ
  pub courier : Courier
  pub status : DeliveryStatus
  pub estimated_arrival : Option ℕ
  pub actual_arrival : Option ℕ
  pub created_at : ℕ
  pub updated_at : ℕ

-- The methods read the clock once; `now` is that reading.
abbrev pub update_status : ℕ → DeliveryStatus → Delivery → Delivery
update_status now new_status delivery = record delivery { status = new_status; updated_at = now }

abbrev pub mark_delivered : ℕ → ℕ → Delivery → Delivery
mark_delivered now actual_arrival delivery =
    update_status now delivered (record delivery { actual_arrival = some actual_arrival })
