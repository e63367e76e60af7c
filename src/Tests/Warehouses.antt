-- ===== src/Tests/Warehouses.antt =====
-- A release command on an inventory with three records.
use supply_chain_tracker.Prelude.{ℕ, ◌≡◌, refl, none, some, [], ◌∷◌, ◌+◌, ◌==◌, true}
use supply_chain_tracker.Outcome.{returns}
use supply_chain_tracker.Table.Laws.{find-All}
use supply_chain_tracker.Warehouse.Entity.{InventoryRecord, stored, shipped}
use supply_chain_tracker.Warehouse.Repository.{Depot, record_key, references}
use supply_chain_tracker.Warehouse.Worker.{handle_release_inventory}
use supply_chain_tracker.Warehouse.Laws.{record_at, IsReferential}
use supply_chain_tracker.Warehouse.Release.{Receives, handle_release_inventory-releases}
use supply_chain_tracker.Tests.Fixtures.{codec, release}

abbrev pub entry : ℕ → ℕ → InventoryRecord
entry k shipment_id = record {
  record_id = k;
  shipment_id = shipment_id;
  warehouse_id = 3;
  status = stored;
  received_at = 10 + k;
  updated_at = 20 + k;
}

abbrev pub gone : InventoryRecord
gone = record (entry 31 2) { status = shipped }

abbrev pub depot : Depot
depot = record {
  warehouses = record { warehouse_id = 3; name = "North"; location = "{}" } ∷ [];
  inventory = entry 30 2 ∷ gone ∷ entry 32 7 ∷ [];
  clock = λ k. 100 + k;
  ticks = 0;
  uuids = λ k. 50 + k;
  drawn = 0;
}

pub depot-IsReferential : IsReferential depot
depot-IsReferential k row found =
    find-All record_key (λ entry. references entry depot ≡ true) k depot.inventory row
      (refl, (refl, (refl, tt))) found

handle_release_inventory-releases_example :
    let (result, s') = handle_release_inventory codec release depot in
    (result ≡ returns tt)
    × ((k : ℕ) (row : InventoryRecord)
        → record_at k depot ≡ some row
        → Receives (row.shipment_id == 2) k row s')
    × ((k : ℕ) → record_at k depot ≡ none → record_at k s' ≡ none)
handle_release_inventory-releases_example =
    handle_release_inventory-releases codec release depot 2 refl (refl, (refl, (refl, tt)))
      depot-IsReferential
