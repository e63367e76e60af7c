-- ===== src/Warehouse/Api.antt =====
-- services/warehouse_service/src/api: the handlers of warehouses and of inventory records. The
-- framework checks a request's DTO and its role before a handler runs.
use supply_chain_tracker.Prelude.{
  ℕ, pos, String, Option, none, some, List, map, ◌==◌, if◌then◌else◌, filter,
}
use supply_chain_tracker.Outcome.{Outcome, http_exception}
use supply_chain_tracker.Exec.{Exec, pure, raise, lift, or_raise, ◌>>=◌, ◌>>◌}
use supply_chain_tracker.Messaging.Value.{nil}
use supply_chain_tracker.Messaging.Codec.{Codec}
use supply_chain_tracker.Messaging.Base.{Event}
use supply_chain_tracker.Messaging.Events.{
  DomainEvent, inventory_reserved, inventory_updated, inventory_released,
}
use supply_chain_tracker.Messaging.Publish.{announced}
use supply_chain_tracker.Warehouse.Entity.{InventoryRecord}
use supply_chain_tracker.Warehouse.Repository.{Depot, Json, now, uuid4, get_record}
use supply_chain_tracker.Warehouse.Service
use supply_chain_tracker.Warehouse.Dto.{
  WarehouseCreateDto, WarehouseDto, WarehouseUpdateDto, warehouse_of_dto, update_warehouse_from_dto,
  warehouse_to_dto, InventoryRecordCreateDto, InventoryRecordDto, InventoryRecordUpdateDto,
  create_dto_to_entity, entity_to_dto,
}

module _ (json : Json) where
  unfoldable pub create_warehouse : WarehouseCreateDto → Exec Depot WarehouseDto
  create_warehouse dto = do
    entity ← warehouse_of_dto dto
    created ← Service.create json entity
    pure (warehouse_to_dto created)

  unfoldable pub list_warehouses : ℕ → ℕ → Exec Depot (List WarehouseDto)
  list_warehouses limit offset = do
    warehouses ← Service.get_all json limit offset
    pure (map warehouse_to_dto warehouses)

  unfoldable pub get_warehouse : ℕ → Exec Depot WarehouseDto
  get_warehouse warehouse_id = do
    found ← Service.get json warehouse_id
    warehouse ← or_raise found (http_exception 404)
    pure (warehouse_to_dto warehouse)

  unfoldable pub update_warehouse : ℕ → WarehouseUpdateDto → Exec Depot WarehouseDto
  update_warehouse warehouse_id dto = do
    found ← Service.get json warehouse_id
    warehouse ← or_raise found (http_exception 404)
    updated_entity ← lift (update_warehouse_from_dto warehouse dto)
    saved ← Service.update json updated_entity
    pure (warehouse_to_dto saved)

  unfoldable pub delete_warehouse : ℕ → Exec Depot (Unit {0})
  delete_warehouse warehouse_id = do
    found ← Service.get json warehouse_id
    or_raise found (http_exception 404)
    Service.delete json warehouse_id

-- `if record is None or record.warehouse_id != warehouse_id: raise HTTPException(404)`
abbrev pub in_warehouse : ℕ → Option InventoryRecord → Exec Depot InventoryRecord
in_warehouse warehouse_id none = raise (http_exception 404)
in_warehouse warehouse_id (some entry) =
    if entry.warehouse_id == warehouse_id then pure entry else raise (http_exception 404)

unfoldable pub list_inventory_records_for_shipment : ℕ → ℕ → Exec Depot (List InventoryRecordDto)
list_inventory_records_for_shipment warehouse_id shipment_id = do
  records ← Service.list_records_by_shipment shipment_id
  pure (map entity_to_dto (filter (λ r. r.warehouse_id == warehouse_id) records))

unfoldable pub get_inventory_record : ℕ → ℕ → Exec Depot InventoryRecordDto
get_inventory_record warehouse_id record_id = do
  found ← get_record record_id
  entry ← in_warehouse warehouse_id found
  pure (entity_to_dto entry)

-- The changes that the handlers make before they publish, and their domain events.
unfoldable pub created_record : ℕ → InventoryRecordCreateDto → Exec Depot InventoryRecord
created_record warehouse_id dto = do
  entity ← create_dto_to_entity warehouse_id dto
  Service.create_record entity

unfoldable pub reserved_event : ℕ → InventoryRecord → Exec Depot DomainEvent
reserved_event warehouse_id created = do
  reserved_at ← now
  pure (
      inventory_reserved (record {
        warehouse_id = warehouse_id;
        shipment_id = created.shipment_id;
        items = nil;
        reserved_at = reserved_at;
      }))

unfoldable pub updated_record : ℕ → ℕ → InventoryRecordUpdateDto → Exec Depot InventoryRecord
updated_record warehouse_id record_id dto = do
  found ← get_record record_id
  in_warehouse warehouse_id found
  status ← or_raise dto.status (http_exception 422)
  Service.update_status record_id status

unfoldable pub updated_event : Codec → InventoryRecord → Exec Depot DomainEvent
updated_event c saved = do
  updated_at ← now
  pure (
      inventory_updated (record {
        warehouse_id = saved.warehouse_id;
        item_id = c.show_uuid saved.record_id;
        new_quantity = pos 0;
        updated_at = updated_at;
      }))

-- the shipment of the deleted record
unfoldable pub deleted_record : ℕ → ℕ → Exec Depot ℕ
deleted_record warehouse_id record_id = do
  found ← get_record record_id
  entry ← in_warehouse warehouse_id found
  Service.delete_record record_id
  pure entry.shipment_id

unfoldable pub released_event : ℕ → ℕ → Exec Depot DomainEvent
released_event warehouse_id shipment_id = do
  released_at ← now
  pure (
      inventory_released (record {
        warehouse_id = warehouse_id;
        shipment_id = shipment_id;
        items = nil;
        released_at = released_at;
        reason = "record_deleted";
      }))

module _ (c : Codec) (publish : Event → String → Outcome (Unit {0})) where
  unfoldable pub create_inventory_record :
      ℕ → InventoryRecordCreateDto → Exec Depot InventoryRecordDto
  create_inventory_record warehouse_id dto =
      announced uuid4 now c publish "inventory-events" (created_record warehouse_id dto)
        (reserved_event warehouse_id) entity_to_dto

  unfoldable pub update_inventory_record :
      ℕ → ℕ → InventoryRecordUpdateDto → Exec Depot InventoryRecordDto
  update_inventory_record warehouse_id record_id dto =
      announced uuid4 now c publish "inventory-events" (updated_record warehouse_id record_id dto)
        (updated_event c) entity_to_dto

  unfoldable pub delete_inventory_record : ℕ → ℕ → Exec Depot (Unit {0})
  delete_inventory_record warehouse_id record_id =
      announced uuid4 now c publish "inventory-events" (deleted_record warehouse_id record_id)
        (released_event warehouse_id) (λ shipment_id. tt)
