-- ===== src/System/Workers.antt =====
-- What a worker does with one compensating command of the coordinator.
use supply_chain_tracker.Prelude.{ℕ, ◌≡◌, refl, none, some, [], ◌∷◌, if◌then◌else◌, ◌==◌}
use supply_chain_tracker.Outcome.{returns}
use supply_chain_tracker.Exec.{Exec, swallow, for_each}
use supply_chain_tracker.Table.Ordering.{HasUniqueKeys}
use supply_chain_tracker.Messaging.Value.{Value, nil}
use supply_chain_tracker.Messaging.Codec.{Codec}
use supply_chain_tracker.Messaging.Commands.{release_inventory, cancel_shipment, unassign_courier}
use supply_chain_tracker.Delivery.Repository.{Fleet, Setup}
use supply_chain_tracker.Delivery.Laws.{Readable, row_at, handle_unassign_courier-deletes}
use supply_chain_tracker.Delivery.Worker.{handle_command, run, delivery_of}
use supply_chain_tracker.Shipment.Repository as ShipmentRepository
use supply_chain_tracker.Shipment.Repository.{ShipmentDb, postgres}
use supply_chain_tracker.Shipment.Postgres as ShipmentTable
use supply_chain_tracker.Shipment.Postgres.{handle_cancel_shipment-deletes}
use supply_chain_tracker.Shipment.Worker as ShipmentWorker
use supply_chain_tracker.Warehouse.Repository.{Depot, record_key}
use supply_chain_tracker.Warehouse.Entity.{InventoryRecord}
use supply_chain_tracker.Warehouse.Laws.{record_at, IsReferential}
use supply_chain_tracker.Warehouse.Release.{Receives, handle_release_inventory-releases}
use supply_chain_tracker.Warehouse.Worker as WarehouseWorker

-- A worker that handles one message, and whose handler returns, is left in the handler's state.
for_each-one :
    {S A : Type 0} (m : A → Exec S (Unit {0})) (a : A) (s : S)
    → (m a s).0 ≡ returns tt
    → for_each (a ∷ []) (λ x. swallow tt (m x)) s ≡ (returns tt, (m a s).1)
unfolding for_each
for_each-one m a s e = rw (e, swallow) refl

module _ (c : Codec) (id saga_id : ℕ) (reason : Value) where
  delivery_of-unassign_courier :
      (d : ℕ) → delivery_of c (unassign_courier c id d saga_id reason) ≡ some d
  unfolding unassign_courier
  delivery_of-unassign_courier d = rw (c.show_uuid_nonempty d, delivery_of) (c.parse-show_uuid d)

  shipment_of-cancel_shipment :
      (k : ℕ) → ShipmentWorker.shipment_of c (cancel_shipment c id k reason saga_id) ≡ some k
  unfolding cancel_shipment
  shipment_of-cancel_shipment k =
      rw (c.show_uuid_nonempty k, ShipmentWorker.shipment_of) (c.parse-show_uuid k)

  shipment_of-release_inventory :
      (k w : ℕ)
      → WarehouseWorker.shipment_of c (release_inventory c id k w nil saga_id reason).payload
        ≡ some k
  unfolding release_inventory
  shipment_of-release_inventory k w = rw (c.show_uuid_nonempty k) (c.parse-show_uuid k)

  pub run-unassign_courier :
      (env : Setup) (d j : ℕ) (fleet : Fleet)
      → Readable env d fleet
      → row_at j (run env c (unassign_courier c id d saga_id reason ∷ []) fleet).1
        ≡ (if d == j then none else row_at j fleet)
  unfolding run handle_command unassign_courier
  run-unassign_courier env d j fleet r =
      let command = unassign_courier c id d saga_id reason in
      let (result, gone, kept) =
        handle_unassign_courier-deletes env c command d fleet (delivery_of-unassign_courier d) r in
      rw (for_each-one (handle_command env c) command fleet result) (gone j)

  pub run-cancel_shipment :
      (env : ShipmentRepository.Setup) (k j : ℕ) (db : ShipmentDb)
      → ShipmentTable.row_at j
          (ShipmentWorker.run (postgres env) c (cancel_shipment c id k reason saga_id ∷ []) db).1
        ≡ (if k == j then none else ShipmentTable.row_at j db)
  unfolding ShipmentWorker.run ShipmentWorker.handle_command cancel_shipment
  run-cancel_shipment env k j db =
      let command = cancel_shipment c id k reason saga_id in
      let (result, gone) =
        handle_cancel_shipment-deletes env c command k db (shipment_of-cancel_shipment k) in
      rw (for_each-one (ShipmentWorker.handle_command (postgres env) c) command db result) (gone j)

  pub run-release_inventory :
      (k w : ℕ) (depot : Depot)
      → HasUniqueKeys record_key depot.inventory
      → IsReferential depot
      → (j : ℕ) (row : InventoryRecord) → record_at j depot ≡ some row
      → Receives
          (row.shipment_id == k)
          j
          row
          (WarehouseWorker.run c (release_inventory c id k w nil saga_id reason ∷ []) depot).1
  unfolding WarehouseWorker.run WarehouseWorker.handle_command release_inventory
  run-release_inventory k w depot unique there j row held =
      let command = release_inventory c id k w nil saga_id reason in
      let (result, rows, absent) =
        handle_release_inventory-releases c command depot k (shipment_of-release_inventory k w)
          unique there in
      rw (for_each-one (WarehouseWorker.handle_command c) command depot result) (rows j row held)
