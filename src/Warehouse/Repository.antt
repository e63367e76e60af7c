-- ===== src/Warehouse/Repository.antt =====
-- The warehouse service's database, and services/warehouse_service/src/infra/db: the repositories
-- of inventory records and of warehouses.
use supply_chain_tracker.Prelude.{
  ℕ, suc, String, Bool, true, false, Option, none, some, List, [], ◌∷◌, ◌==◌, if◌then◌else◌, filter,
}
use supply_chain_tracker.Outcome.{Outcome, returns, raises, foreign_key_violation}
use supply_chain_tracker.Exec.{Exec, pure, lift, ◌>>=◌}
use supply_chain_tracker.Table.{Table, find, upsert, delete_where, stored, order_by, page}
use supply_chain_tracker.Warehouse.Entity.{InventoryRecord, Warehouse, Location}

-- A row of `warehouses`: the location is a JSON text.
pub record WarehouseRow : Type 0 where
  pub warehouse_id : ℕ
  pub name : String
  pub location : String

-- `clock` and `uuids` give the readings of the clock and the draws of `uuid4` to come.
pub record Depot : Type 0 where
  pub warehouses : Table WarehouseRow
  pub inventory : Table InventoryRecord
  pub clock : ℕ → ℕ
  pub ticks : ℕ
  pub uuids : ℕ → ℕ
  pub drawn : ℕ

-- `json.dumps` of a location, `Location(**json.loads(text))`, and ORDER BY name, whose collation
-- is the database's: a rank of each name.
pub record Json : Type 0 where
  pub dumps : Location → String
  pub loads : String → Outcome Location
  pub rank : String → ℕ

-- `datetime.utcnow()`
abbrev pub now : Exec Depot ℕ
now s = (returns (s.clock s.ticks), record s { ticks = suc s.ticks })

abbrev pub uuid4 : Exec Depot ℕ
uuid4 s = (returns (s.uuids s.drawn), record s { drawn = suc s.drawn })

abbrev pub record_key : InventoryRecord → ℕ
record_key entry = entry.record_id

abbrev pub warehouse_key : WarehouseRow → ℕ
warehouse_key row = row.warehouse_id

-- `_row_to_entity` of the inventory repository: `InventoryRecord.__init__` reads the clock for
-- `received_at` and `updated_at`, and the row's two instants are not handed on.
unfoldable pub record_of_row : InventoryRecord → Exec Depot InventoryRecord
record_of_row row = do t ← now; u ← now; pure (record row { received_at = t; updated_at = u })

-- DO UPDATE SET leaves record_id and received_at
abbrev pub merge_record : InventoryRecord → InventoryRecord → InventoryRecord
merge_record old new = record old {
  shipment_id = new.shipment_id;
  warehouse_id = new.warehouse_id;
  status = new.status;
  updated_at = new.updated_at;
}

-- `warehouse_id` REFERENCES warehouses (migrations/002_create_inventory_records.py)
abbrev pub references : InventoryRecord → Depot → Bool
references entry s = elim (find warehouse_key entry.warehouse_id s.warehouses) [
  | none ↦ false
  | some w ↦ true
]

unfoldable pub save_record : InventoryRecord → Exec Depot InventoryRecord
save_record entry s =
    if references entry s
    then record_of_row (stored record_key merge_record entry s.inventory)
        (record s { inventory = upsert record_key merge_record entry s.inventory })
    else (raises foreign_key_violation, s)

unfoldable pub get_record : ℕ → Exec Depot (Option InventoryRecord)
get_record record_id s = elim (find record_key record_id s.inventory) [
  | none ↦ (returns none, s)
  | some row ↦ (do entry ← record_of_row row; pure (some entry)) s
]

-- `[self._row_to_entity(row) for row in rows]`
unfoldable pub records_of_rows : List InventoryRecord → Exec Depot (List InventoryRecord)
records_of_rows [] = pure []
records_of_rows (row ∷ rows) = do
  entry ← record_of_row row
  entries ← records_of_rows rows
  pure (entry ∷ entries)

-- the rows of a shipment, ORDER BY received_at
abbrev pub rows_of_shipment : ℕ → Table InventoryRecord → List InventoryRecord
rows_of_shipment shipment_id t =
    order_by (λ row. row.received_at) (filter (λ row. row.shipment_id == shipment_id) t)

unfoldable pub list_by_shipment : ℕ → Exec Depot (List InventoryRecord)
list_by_shipment shipment_id s = records_of_rows (rows_of_shipment shipment_id s.inventory) s

unfoldable pub delete_record : ℕ → Exec Depot (Unit {0})
delete_record record_id s =
    (returns tt, record s { inventory = delete_where record_key record_id s.inventory })

-- `_row_to_entity` of the warehouse repository
unfoldable pub warehouse_of_row : Json → WarehouseRow → Outcome Warehouse
warehouse_of_row json row = elim (json.loads row.location) [
  | raises e ↦ raises e
  | returns location ↦
      returns (record { warehouse_id = row.warehouse_id; name = row.name; location = location })
]

abbrev pub row_of_warehouse : Json → Warehouse → WarehouseRow
row_of_warehouse json warehouse = record {
  warehouse_id = warehouse.warehouse_id;
  name = warehouse.name;
  location = json.dumps warehouse.location;
}

abbrev pub merge_warehouse : WarehouseRow → WarehouseRow → WarehouseRow
merge_warehouse old new = record old { name = new.name; location = new.location }

unfoldable pub save_warehouse : Json → Warehouse → Exec Depot Warehouse
save_warehouse json warehouse s =
    let row = row_of_warehouse json warehouse in
    (
      warehouse_of_row json (stored warehouse_key merge_warehouse row s.warehouses),
      record s { warehouses = upsert warehouse_key merge_warehouse row s.warehouses },
    )

unfoldable pub get_warehouse : Json → ℕ → Exec Depot (Option Warehouse)
get_warehouse json warehouse_id s = elim (find warehouse_key warehouse_id s.warehouses) [
  | none ↦ (returns none, s)
  | some row ↦ (do warehouse ← lift (warehouse_of_row json row); pure (some warehouse)) s
]

unfoldable pub warehouses_of_rows : Json → List WarehouseRow → Exec Depot (List Warehouse)
warehouses_of_rows json [] = pure []
warehouses_of_rows json (row ∷ rows) = do
  warehouse ← lift (warehouse_of_row json row)
  warehouses ← warehouses_of_rows json rows
  pure (warehouse ∷ warehouses)

unfoldable pub get_all_warehouses : Json → ℕ → ℕ → Exec Depot (List Warehouse)
get_all_warehouses json limit offset s =
    warehouses_of_rows json (page limit offset (order_by (λ row. json.rank row.name) s.warehouses))
      s

-- the rows that ON DELETE CASCADE leaves
abbrev pub cascade : ℕ → Table InventoryRecord → Table InventoryRecord
cascade warehouse_id [] = []
cascade warehouse_id (row ∷ rows) =
    let rest = cascade warehouse_id rows in
    if row.warehouse_id == warehouse_id then rest else row ∷ rest

unfoldable pub delete_warehouse : ℕ → Exec Depot (Unit {0})
delete_warehouse warehouse_id s = (
  returns tt,
  record s {
    warehouses = delete_where warehouse_key warehouse_id s.warehouses;
    inventory = cascade warehouse_id s.inventory;
  },
)
