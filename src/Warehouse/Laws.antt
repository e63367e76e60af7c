-- ===== src/Warehouse/Laws.antt =====
-- What `update_status` leaves of the inventory, record by record.
use supply_chain_tracker.Prelude.{
  ℕ, suc, ◌≡◌, refl, true, false, not, ◌&&◌, Option, none, some, ◌==◌, if◌then◌else◌,
}
use supply_chain_tracker.Outcome.{returns, raises, status_transition, inventory_record_not_found}
use supply_chain_tracker.Table.{find, stored, upsert}
use supply_chain_tracker.Table.Laws.{find-upsert}
use supply_chain_tracker.Warehouse.Entity.{InventoryStatus, InventoryRecord, is_shipped}
use supply_chain_tracker.Warehouse.Repository.{
  Depot, record_key, references, merge_record, save_record, get_record, record_of_row,
}
use supply_chain_tracker.Warehouse.Service.{update_status}

abbrev pub record_at : ℕ → Depot → Option InventoryRecord
record_at k s = find record_key k s.inventory

-- Every record's warehouse exists.
abbrev pub IsReferential : Depot → Type 0
IsReferential s =
    (k : ℕ) (row : InventoryRecord) → record_at k s ≡ some row → references row s ≡ true

-- A row after an update of its status.
abbrev pub with_status : InventoryStatus → ℕ → InventoryRecord → InventoryRecord
with_status status t row = record row { status = status; updated_at = t }

-- The entity that `update_status` saves: its `received_at` is a reading of the clock.
abbrev changed : InventoryStatus → InventoryRecord → Depot → InventoryRecord
changed status row s = record row {
  status = status;
  received_at = s.clock s.ticks;
  updated_at = s.clock (suc (suc s.ticks));
}

abbrev pub saved_state : InventoryStatus → InventoryRecord → Depot → Depot
saved_state status row s = record s {
  inventory = upsert record_key merge_record (changed status row s) s.inventory;
  ticks = suc (suc (suc (suc (suc s.ticks))));
}

-- `update_status` of a record that is found, whose warehouse exists, and that is not shipped.
pub update_status-saved :
    (status : InventoryStatus) (s : Depot) (row : InventoryRecord)
    → record_at row.record_id s ≡ some row
    → references row s ≡ true
    → (is_shipped row.status && not (is_shipped status)) ≡ false
    → update_status row.record_id status s ≡ (
      returns (record row {
        status = status;
        received_at = s.clock (suc (suc (suc s.ticks)));
        updated_at = s.clock (suc (suc (suc (suc s.ticks))));
      }),
      saved_state status row s,
    )
unfolding update_status record_of_row get_record save_record
update_status-saved status s row found there open' =
    rw (found, get_record) (rw open' (rw (there, save_record) (rw (found, stored))))

pub update_status-refused :
    (status : InventoryStatus) (s : Depot) (row : InventoryRecord)
    → record_at row.record_id s ≡ some row
    → (is_shipped row.status && not (is_shipped status)) ≡ true
    → update_status row.record_id status s
      ≡ (raises status_transition, record s { ticks = suc (suc s.ticks) })
unfolding update_status record_of_row get_record
update_status-refused status s row found closed = rw (found, get_record) (rw closed)

pub update_status-missing :
    (status : InventoryStatus) (s : Depot) (k : ℕ)
    → record_at k s ≡ none
    → update_status k status s ≡ (raises inventory_record_not_found, s)
unfolding update_status get_record
update_status-missing status s k missing = rw (missing, get_record)

pub record_at-saved_state :
    (status : InventoryStatus) (s : Depot) (row : InventoryRecord) (k : ℕ)
    → record_at row.record_id s ≡ some row
    → record_at k (saved_state status row s) ≡ (
        if row.record_id == k
        then some (with_status status (s.clock (suc (suc s.ticks))) row)
        else record_at k s)
record_at-saved_state status s row k found =
    rw (find-upsert record_key merge_record (λ old new. refl) k (changed status row s) s.inventory)
      (rw (found, stored))
