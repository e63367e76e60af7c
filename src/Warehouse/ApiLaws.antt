-- ===== src/Warehouse/ApiLaws.antt =====
-- What the warehouse service's handlers of inventory records do.
use supply_chain_tracker.Prelude.{
  ℕ, suc, String, ◌≡◌, refl, none, some, false, ◌==◌, Option-cases, inl, inr,
}
use supply_chain_tracker.Outcome.{Outcome, returns, raises, http_exception}
use supply_chain_tracker.Table.{find}
use supply_chain_tracker.Messaging.Codec.{Codec}
use supply_chain_tracker.Messaging.Base.{Event}
use supply_chain_tracker.Messaging.Publish.{announced}
use supply_chain_tracker.Warehouse.Entity.{InventoryRecord}
use supply_chain_tracker.Warehouse.Repository.{Depot, record_key, get_record, record_of_row}
use supply_chain_tracker.Warehouse.Api.{
  get_inventory_record, update_inventory_record, delete_inventory_record, updated_record,
  deleted_record,
}
use supply_chain_tracker.Warehouse.Dto.{InventoryRecordUpdateDto}

-- A call that answers 404 and leaves the inventory as it was.
abbrev pub NotFound : {A : Type 0} → Depot → Outcome A × Depot → Type 0
NotFound s (r, s') = (r ≡ raises (http_exception 404)) × (s'.inventory ≡ s.inventory)

get_record-missing :
    (k : ℕ) (s : Depot) → find record_key k s.inventory ≡ none → get_record k s ≡ (returns none, s)
unfolding get_record
get_record-missing k s e = rw (e, get_record) refl

get_record-found :
    (k : ℕ) (s : Depot) (row : InventoryRecord)
    → find record_key k s.inventory ≡ some row
    → get_record k s ≡ (
      returns
          (some (record row { received_at = s.clock s.ticks; updated_at = s.clock (suc s.ticks) })),
      record s { ticks = suc (suc s.ticks) },
    )
unfolding get_record record_of_row
get_record-found k s row e = rw (e, get_record) refl

-- Where a record is missing, or belongs to another warehouse than the path's: GET, PATCH and DELETE
-- answer 404, and the inventory is as it was.
pub other_warehouse-NotFound :
    (c : Codec) (publish : Event → String → Outcome (Unit {0})) (changes : InventoryRecordUpdateDto)
    (warehouse_id record_id : ℕ) (s : Depot)
    → ((row : InventoryRecord)
        → find record_key record_id s.inventory ≡ some row
        → (row.warehouse_id == warehouse_id) ≡ false)
    → NotFound s (get_inventory_record warehouse_id record_id s)
      × NotFound s (update_inventory_record c publish warehouse_id record_id changes s)
      × NotFound s (delete_inventory_record c publish warehouse_id record_id s)
unfolding get_inventory_record update_inventory_record delete_inventory_record updated_record
    deleted_record announced
other_warehouse-NotFound c publish changes w k s elsewhere =
    elim (Option-cases (find record_key k s.inventory)) [
      | inl missing ↦ rw (get_record-missing k s missing) ((refl, refl), (refl, refl), (refl, refl))
      | inr (row, found) ↦
          rw (get_record-found k s row found)
            (rw (elsewhere row found) ((refl, refl), (refl, refl), (refl, refl)))
    ]
