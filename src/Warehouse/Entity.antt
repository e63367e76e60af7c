-- ===== src/Warehouse/Entity.antt =====
-- services/warehouse_service/src/domain/entities and libs/libs/value_objects/location.py
use supply_chain_tracker.Prelude.{ℕ, String, Bool, ◌||◌, str_eq, if◌then◌else◌}
use supply_chain_tracker.Outcome.{Outcome, returns, raises, value_error}

pub data InventoryStatus : Type 0 where
  received stored ready_for_delivery shipped : InventoryStatus

-- `status.value`
abbrev pub value : InventoryStatus → String
value received = "received"
value stored = "stored"
value ready_for_delivery = "ready_for_delivery"
value shipped = "shipped"

-- `status == InventoryStatus.SHIPPED`
abbrev pub is_shipped : InventoryStatus → Bool
is_shipped status = str_eq (value status) "shipped"

pub record InventoryRecord : Type 0 where
  pub record_id : ℕ
  pub shipment_id : ℕ
  pub warehouse_id : ℕ
  pub status : InventoryStatus
  pub received_at : ℕ
  pub updated_at : ℕ

-- `InventoryRecord.update_status`; `now` is its reading of the clock
abbrev pub update_status : ℕ → InventoryStatus → InventoryRecord → InventoryRecord
update_status now new_status entry = record entry { status = new_status; updated_at = now }

pub record Location : Type 0 where
  pub country : String
  pub city : String
  pub address : String

-- `Location(...)`: `__post_init__` refuses an empty country or city
unfoldable pub location : String → String → String → Outcome Location
location country city address =
    if str_eq country "" || str_eq city ""
    then raises value_error
    else returns (record { country = country; city = city; address = address })

pub record Warehouse : Type 0 where
  pub warehouse_id : ℕ
  pub name : String
  pub location : Location

abbrev pub update_location : Location → Warehouse → Warehouse
update_location new_location warehouse = record warehouse { location = new_location }
