-- ===== src/Warehouse/Worker.antt =====
-- services/warehouse_service/src/app/workers/command_worker.py: WarehouseCommandWorker
-- Logging is left out, and with it the count of released records, which is only logged.
use supply_chain_tracker.Prelude.{ℕ, Option, none, some, List, [], ◌∷◌, str_eq, if◌then◌else◌}
use supply_chain_tracker.Exec.{Exec, pure, swallow, for_each, ◌>>=◌, ◌>>◌}
use supply_chain_tracker.Messaging.Value.{Fields, get, truthy}
use supply_chain_tracker.Messaging.Codec.{Codec, str}
use supply_chain_tracker.Messaging.Base.{Command}
use supply_chain_tracker.Warehouse.Entity.{InventoryRecord, received}
use supply_chain_tracker.Warehouse.Repository.{Depot}
use supply_chain_tracker.Warehouse.Service.{list_records_by_shipment, update_status}

-- `shipment_id` of the payload as `uuid.UUID(str(raw))`; none where it is missing, falsy or no UUID
abbrev pub shipment_of : Codec → Fields → Option ℕ
shipment_of c payload = elim (get "shipment_id" payload) [
  | none ↦ none
  | some raw ↦ if truthy raw then c.parse_uuid (str c raw) else none
]

-- the body of the loop: either exception handler goes on with the next record
unfoldable pub release_one : InventoryRecord → Exec Depot (Unit {0})
release_one entry = swallow tt (do update_status entry.record_id received; pure tt)

unfoldable pub handle_release_inventory : Codec → Command → Exec Depot (Unit {0})
handle_release_inventory c command = elim (shipment_of c command.payload) [
  | none ↦ pure tt
  | some shipment_id ↦ do
    records ← list_records_by_shipment shipment_id
    elim records [ [] ↦ pure tt | entry ∷ entries ↦ for_each (entry ∷ entries) release_one ]
]

unfoldable pub handle_command : Codec → Command → Exec Depot (Unit {0})
handle_command c command =
    if str_eq command.command_type "inventory.release"
    then handle_release_inventory c command
    else pure tt

-- the loop of `run` over the commands that the queue yields
unfoldable pub run : Codec → List Command → Exec Depot (Unit {0})
run c commands = for_each commands (λ command. swallow tt (handle_command c command))
