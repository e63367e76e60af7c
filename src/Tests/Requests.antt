-- ===== src/Tests/Requests.antt =====
-- Requests to the delivery, warehouse and shipment services.
use supply_chain_tracker.Prelude.{ℕ, pos, ◌≡◌, refl, none, some, ◌==◌, false, String}
use supply_chain_tracker.Outcome.{Outcome, raises, kafka_error}
use supply_chain_tracker.Table.{find}
use supply_chain_tracker.Messaging.Base.{Event}
use supply_chain_tracker.Delivery.Dto.{DeliveryCreateDto, DeliveryUpdateDto}
use supply_chain_tracker.Warehouse.Entity.{stored, InventoryRecord}
use supply_chain_tracker.Warehouse.Api as WarehouseApi
use supply_chain_tracker.Warehouse.Dto.{InventoryRecordCreateDto, InventoryRecordUpdateDto}
use supply_chain_tracker.Warehouse.ApiLaws.{NotFound, other_warehouse-NotFound}
use supply_chain_tracker.Shipment.ItemApi.{ItemCreateDto, ItemUpdateDto}
use supply_chain_tracker.Tests.Fixtures.{codec}
use supply_chain_tracker.Tests.Warehouses.{depot, entry}

abbrev order : DeliveryCreateDto
order = record { shipment_id = 2; courier_id = 8; estimated_arrival = none; status = none }

abbrev no_change : DeliveryUpdateDto
no_change = record {
  courier_id = none;
  status = none;
  estimated_arrival = none;
  actual_arrival = none;
}

abbrev arrival : InventoryRecordCreateDto
arrival = record { shipment_id = 2; warehouse_id = none; status = none }

abbrev to_stored : InventoryRecordUpdateDto
to_stored = record { status = some stored }

abbrev unreachable : Event → String → Outcome (Unit {0})
unreachable event topic = raises kafka_error

-- the record 30 is in the warehouse 3, not in 4
elsewhere :
    (row : InventoryRecord)
    → find (λ r. r.record_id) 30 depot.inventory ≡ some row
    → (row.warehouse_id == 4) ≡ false
elsewhere row found = let same : entry 30 2 ≡ row = cc in rw (← same) refl

other_warehouse-NotFound_example :
    NotFound depot (WarehouseApi.get_inventory_record 4 30 depot)
    × NotFound depot (WarehouseApi.update_inventory_record codec unreachable 4 30 to_stored depot)
    × NotFound depot (WarehouseApi.delete_inventory_record codec unreachable 4 30 depot)
other_warehouse-NotFound_example =
    other_warehouse-NotFound codec unreachable to_stored 4 30 depot elsewhere

abbrev nuts : ItemCreateDto ℕ
nuts = record { name = "nuts"; quantity = pos 4; weight = 9 }

abbrev renamed : ItemUpdateDto ℕ
renamed = record { name = some "bolts M8"; quantity = none; weight = none }
