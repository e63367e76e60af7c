-- ===== src/Tests/Rollbacks.antt =====
-- A failed delivery, over the fixtures of all four services.
use supply_chain_tracker.Prelude.{
  ℕ, ◌≡◌, refl, Option, none, some, ◌==◌, ◌+◌, if◌then◌else◌, length, String,
}
use supply_chain_tracker.Outcome.{Error}
use supply_chain_tracker.Messaging.Memory.{consume_command_turn}
use supply_chain_tracker.Saga.Plan.{orders}
use supply_chain_tracker.Saga.Worker.{handle_failure_event}
use supply_chain_tracker.Delivery.Worker.{run}
use supply_chain_tracker.Delivery.Laws.{row_at}
use supply_chain_tracker.Shipment.Worker as ShipmentWorker
use supply_chain_tracker.Shipment.Postgres as ShipmentTable
use supply_chain_tracker.Shipment.Repository.{postgres}
use supply_chain_tracker.Warehouse.Worker as WarehouseWorker
use supply_chain_tracker.Warehouse.Entity.{InventoryRecord}
use supply_chain_tracker.Warehouse.Laws.{record_at}
use supply_chain_tracker.Warehouse.Release.{Receives}
use supply_chain_tracker.System.Queue.{
  on_memory, commands_to, consume_command_turn-handle_failure_event,
}
use supply_chain_tracker.System.Rollback.{received, handle_failure_event-rolls_back}
use supply_chain_tracker.Tests.Fixtures.{codec, live, coordinator, delivery_failed}
use supply_chain_tracker.Tests.Deliveries.{fleet_env, fleet, parcel-Readable}
use supply_chain_tracker.Tests.Shipments.{pg, db}
use supply_chain_tracker.Tests.Warehouses.{depot, depot-IsReferential}

-- a table that takes every status
abbrev any : String → Option Error
any status = none

consume_command_turn-handle_failure_event_example :
    let sent =
      commands_to codec any "inventory.commands"
        (orders codec live delivery_failed)
        (record coordinator { ticks = 1 }) in
    consume_command_turn codec "inventory.commands" 0
      (handle_failure_event (on_memory codec any) delivery_failed coordinator).1.broker
    ≡ record { yielded = sent; offset = 0 + length sent; failure = none }
consume_command_turn-handle_failure_event_example =
    consume_command_turn-handle_failure_event codec any "inventory.commands" (λ status. refl)
      delivery_failed coordinator live refl refl refl

handle_failure_event-rolls_back_example :
    let fleet' =
      (run fleet_env codec
        (received codec any "delivery.commands" delivery_failed coordinator)
        fleet).1 in
    let db' =
      (ShipmentWorker.run
        (postgres pg)
        codec
        (received codec any "shipment.commands" delivery_failed coordinator)
        db).1 in
    let depot' =
      (WarehouseWorker.run codec
        (received codec any "inventory.commands" delivery_failed coordinator)
        depot).1 in
    ((j : ℕ) → row_at j fleet' ≡ (if 4 == j then none else row_at j fleet))
    × ((j : ℕ) → ShipmentTable.row_at j db' ≡ (if 2 == j then none else ShipmentTable.row_at j db))
    × ((k : ℕ) (row : InventoryRecord)
        → record_at k depot ≡ some row
        → Receives (row.shipment_id == 2) k row depot')
handle_failure_event-rolls_back_example =
    handle_failure_event-rolls_back codec any (λ status. refl) delivery_failed coordinator live 3 4
      refl refl refl refl refl refl fleet_env fleet pg db depot parcel-Readable
      (refl, (refl, (refl, tt))) depot-IsReferential
