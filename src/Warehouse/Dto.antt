-- ===== src/Warehouse/Dto.antt =====
-- services/warehouse_service/src/api/dto and mappers: the DTOs of warehouses and inventory records.
use supply_chain_tracker.Prelude.{ℕ, String, Bool, true, false, Option, none, some, if◌then◌else◌}
use supply_chain_tracker.Outcome.{Outcome, returns, raises}
use supply_chain_tracker.Exec.{Exec, pure, lift, ◌>>=◌}
use supply_chain_tracker.Warehouse.Entity.{
  InventoryStatus, received, InventoryRecord, Location, location, Warehouse, update_location,
}
use supply_chain_tracker.Warehouse.Repository.{Depot, now, uuid4}

pub record WarehouseCreateDto : Type 0 where
  pub name : String
  pub country : String
  pub city : String
  pub address : String

pub record WarehouseDto : Type 0 where
  pub warehouse_id : ℕ
  pub name : String
  pub country : String
  pub city : String
  pub address : String

pub record WarehouseUpdateDto : Type 0 where
  pub name : Option String
  pub country : Option String
  pub city : Option String
  pub address : Option String

-- `WarehouseMapper.create_dto_to_entity`
unfoldable pub warehouse_of_dto : WarehouseCreateDto → Exec Depot Warehouse
warehouse_of_dto dto = do
  place ← lift (location dto.country dto.city dto.address)
  id ← uuid4
  pure (record { warehouse_id = id; name = dto.name; location = place })

-- `new if new is not None else old`
abbrev pub new_or {ℓ} : {A : Type ℓ} → Option A → A → A
new_or none old = old
new_or (some new) old = new

-- `WarehouseMapper.update_entity_from_dto`
unfoldable pub updated_location : Warehouse → WarehouseUpdateDto → Outcome Location
updated_location entity dto =
    location (new_or dto.country entity.location.country) (new_or dto.city entity.location.city)
      (new_or dto.address entity.location.address)

-- `dto.country is not None or dto.city is not None or dto.address is not None`
abbrev pub has_location : WarehouseUpdateDto → Bool
has_location dto = elim dto.country [
  | some country ↦ true
  | none ↦ elim dto.city [
    | some city ↦ true
    | none ↦ elim dto.address [ some address ↦ true | none ↦ false ]
  ]
]

unfoldable pub update_warehouse_from_dto : Warehouse → WarehouseUpdateDto → Outcome Warehouse
update_warehouse_from_dto entity dto =
    let named : Warehouse = record entity { name = new_or dto.name entity.name } in
    if has_location dto
    then elim (updated_location entity dto) [
      | raises e ↦ raises e
      | returns place ↦ returns (update_location place named)
    ]
    else returns named

-- `WarehouseMapper.entity_to_dto`
abbrev pub warehouse_to_dto : Warehouse → WarehouseDto
warehouse_to_dto entity = record {
  warehouse_id = entity.warehouse_id;
  name = entity.name;
  country = entity.location.country;
  city = entity.location.city;
  address = entity.location.address;
}

-- The warehouse of the path replaces the one of the body.
pub record InventoryRecordCreateDto : Type 0 where
  pub shipment_id : ℕ
  pub warehouse_id : Option ℕ
  pub status : Option InventoryStatus

pub record InventoryRecordDto : Type 0 where
  pub record_id : ℕ
  pub shipment_id : ℕ
  pub warehouse_id : ℕ
  pub status : InventoryStatus
  pub received_at : ℕ
  pub updated_at : ℕ

pub record InventoryRecordUpdateDto : Type 0 where
  pub status : Option InventoryStatus

-- `InventoryRecordMapper.create_dto_to_entity`, after `dto.warehouse_id = warehouse_id`
unfoldable pub create_dto_to_entity : ℕ → InventoryRecordCreateDto → Exec Depot InventoryRecord
create_dto_to_entity warehouse_id dto = do
  id ← uuid4
  t ← now
  u ← now
  pure (record {
    record_id = id;
    shipment_id = dto.shipment_id;
    warehouse_id = warehouse_id;
    status = new_or dto.status received;
    received_at = t;
    updated_at = u;
  })

-- `InventoryRecordMapper.entity_to_dto`
abbrev pub entity_to_dto : InventoryRecord → InventoryRecordDto
entity_to_dto entity = record {
  record_id = entity.record_id;
  shipment_id = entity.shipment_id;
  warehouse_id = entity.warehouse_id;
  status = entity.status;
  received_at = entity.received_at;
  updated_at = entity.updated_at;
}
