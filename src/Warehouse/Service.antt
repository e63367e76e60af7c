-- ===== src/Warehouse/Service.antt =====
-- services/warehouse_service/src/app/services: InventoryService and WarehouseService
use supply_chain_tracker.Prelude.{ℕ, Option, List, not, ◌&&◌, if◌then◌else◌}
use supply_chain_tracker.Outcome.{
  inventory_record_not_found, warehouse_not_found, status_transition,
}
use supply_chain_tracker.Exec.{Exec, raise, or_raise, ◌>>=◌, ◌>>◌}
use supply_chain_tracker.Warehouse.Entity
use supply_chain_tracker.Warehouse.Entity.{
  InventoryStatus, InventoryRecord, Warehouse, Location, is_shipped, update_location,
}
use supply_chain_tracker.Warehouse.Repository.{
  Depot, Json, now, save_record, get_record, list_by_shipment, save_warehouse, get_warehouse,
  get_all_warehouses,
}
use supply_chain_tracker.Warehouse.Repository

unfoldable pub create_record : InventoryRecord → Exec Depot InventoryRecord
create_record entry = save_record entry

unfoldable pub list_records_by_shipment : ℕ → Exec Depot (List InventoryRecord)
list_records_by_shipment shipment_id = list_by_shipment shipment_id

unfoldable pub delete_record : ℕ → Exec Depot (Unit {0})
delete_record record_id = do
  existing ← get_record record_id
  or_raise existing inventory_record_not_found
  Repository.delete_record record_id

-- `InventoryService.update_status`
unfoldable pub update_status : ℕ → InventoryStatus → Exec Depot InventoryRecord
update_status record_id new_status = do
  found ← get_record record_id
  entry ← or_raise found inventory_record_not_found
  if is_shipped entry.status && not (is_shipped new_status)
      then raise status_transition
      else do t ← now; save_record (Entity.update_status t new_status entry)

unfoldable pub create : Json → Warehouse → Exec Depot Warehouse
create json warehouse = save_warehouse json warehouse

unfoldable pub get : Json → ℕ → Exec Depot (Option Warehouse)
get json warehouse_id = get_warehouse json warehouse_id

unfoldable pub get_all : Json → ℕ → ℕ → Exec Depot (List Warehouse)
get_all json limit offset = get_all_warehouses json limit offset

unfoldable pub update : Json → Warehouse → Exec Depot Warehouse
update json warehouse = do
  existing ← get_warehouse json warehouse.warehouse_id
  or_raise existing warehouse_not_found
  save_warehouse json warehouse

unfoldable pub delete : Json → ℕ → Exec Depot (Unit {0})
delete json warehouse_id = do
  existing ← get_warehouse json warehouse_id
  or_raise existing warehouse_not_found
  Repository.delete_warehouse warehouse_id

-- `WarehouseService.update_location`
unfoldable pub change_location : Json → ℕ → Location → Exec Depot Warehouse
change_location json warehouse_id new_location = do
  found ← get_warehouse json warehouse_id
  warehouse ← or_raise found warehouse_not_found
  save_warehouse json (update_location new_location warehouse)
