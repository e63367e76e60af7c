-- ===== src/System/Rollback.antt =====
-- A failed delivery, from the coordinator's queue through the command workers of the three
-- services.
use Prim.Native.String.{◌++◌ as ◌+++◌}
use supply_chain_tracker.Prelude.{
  ℕ, suc, String, ◌≡◌, refl, ap, ◌∙◌, Option, none, some, List, [], ◌∷◌, ◌++◌, if◌then◌else◌, ◌==◌,
  length,
}
use supply_chain_tracker.Outcome.{Error}
use supply_chain_tracker.Table.Ordering.{HasUniqueKeys}
use supply_chain_tracker.Messaging.Value.{Value, text, nil}
use supply_chain_tracker.Messaging.Codec.{Codec}
use supply_chain_tracker.Messaging.Base.{Event, Command}
use supply_chain_tracker.Messaging.Commands.{release_inventory, cancel_shipment, unassign_courier}
use supply_chain_tracker.Messaging.Memory.{consume_command_turn}
use supply_chain_tracker.Saga.Entity.{SagaInstance, started}
use supply_chain_tracker.Saga.Repository.{Coordinator}
use supply_chain_tracker.Saga.Laws.{saga_at, Accepts}
use supply_chain_tracker.Saga.Worker.{handle_failure_event, get_or}
use supply_chain_tracker.Saga.Plan.{orders, unassign_order, release_order, order_of, cancel}
use supply_chain_tracker.System.Queue.{
  on_memory, commands_to, consume_command_turn-handle_failure_event,
}
use supply_chain_tracker.Delivery.Repository.{Fleet, Setup}
use supply_chain_tracker.Delivery.Laws.{Readable, row_at}
use supply_chain_tracker.Delivery.Worker.{run}
use supply_chain_tracker.Shipment.Repository as ShipmentRepository
use supply_chain_tracker.Shipment.Repository.{ShipmentDb, postgres}
use supply_chain_tracker.Shipment.Postgres as ShipmentTable
use supply_chain_tracker.Shipment.Postgres.{handle_cancel_shipment-deletes}
use supply_chain_tracker.Shipment.Worker as ShipmentWorker
use supply_chain_tracker.Warehouse.Repository.{Depot, record_key}
use supply_chain_tracker.Warehouse.Entity.{InventoryRecord}
use supply_chain_tracker.Warehouse.Laws.{record_at, IsReferential}
use supply_chain_tracker.Warehouse.Release.{Receives}
use supply_chain_tracker.Warehouse.Worker as WarehouseWorker
use supply_chain_tracker.System.Workers.{
  run-unassign_courier, run-cancel_shipment, run-release_inventory,
}

-- The orders for a failed delivery of a saga that has come to every step.
orders-delivery_failed :
    (c : Codec) (saga : SagaInstance) (event : Event) (w d : ℕ)
    → event.event_type ≡ "delivery.failed"
    → saga.warehouse_id ≡ some w
    → saga.delivery_id ≡ some d
    → let failure = get_or "reason" event.payload (text ("Triggered by " +++ event.event_type)) in
      let rollback = text "Delivery failed rollback" in
      orders c saga event
      ≡ unassign_order c saga failure rollback (some d)
        ++ (release_order c saga failure rollback (some w)
            ++ (order_of c saga failure rollback cancel ++ []))
orders-delivery_failed c saga event w d failed reserved assigned =
    rw failed (rw reserved (rw assigned refl))

-- What a worker yields that had read its topic to the end, and then takes a turn after the
-- coordinator has handled the event.
abbrev pub received : Codec → (String → Option Error) → String → Event → Coordinator → List Command
received c violation topic event s =
    (consume_command_turn c topic (length (s.broker.commands_storage topic))
      (handle_failure_event (on_memory c violation) event s).1.broker).yielded

module _ (c : Codec) (violation : String → Option Error) (ok : Accepts (on_memory c violation))
    (event : Event) (s : Coordinator) (saga : SagaInstance) (w d : ℕ)
    (correlated : event.correlation_id ≡ some saga.saga_id)
    (found : saga_at saga.saga_id s ≡ some saga) (live : saga.status ≡ started)
    (failed : event.event_type ≡ "delivery.failed") (reserved : saga.warehouse_id ≡ some w)
    (assigned : saga.delivery_id ≡ some d) where
  abbrev failure : Value
  failure = get_or "reason" event.payload (text ("Triggered by " +++ event.event_type))

  abbrev rollback : Value
  rollback = text "Delivery failed rollback"

  received-orders :
      (topic : String)
      → received c violation topic event s
        ≡ commands_to c violation topic (orders c saga event) (record s { ticks = suc s.ticks })
  received-orders topic =
      ap (λ t. t.yielded)
        (consume_command_turn-handle_failure_event c violation topic ok event s saga correlated
          found live)

  received-commands :
      (topic : String)
      → received c violation topic event s
        ≡ commands_to c violation topic
            (unassign_order c saga failure rollback (some d)
              ++ (release_order c saga failure rollback (some w)
                  ++ (order_of c saga failure rollback cancel ++ [])))
            (record s { ticks = suc s.ticks })
  received-commands topic =
      received-orders topic
      ∙ ap (λ os. commands_to c violation topic os (record s { ticks = suc s.ticks }))
          (orders-delivery_failed c saga event w d failed reserved assigned)

  received-delivery :
      received c violation "delivery.commands" event s
      ≡ unassign_courier c (s.uuids s.drawn) d saga.saga_id failure ∷ []
  received-delivery = received-commands "delivery.commands"

  received-inventory :
      received c violation "inventory.commands" event s
      ≡ release_inventory c (s.uuids (suc s.drawn)) saga.shipment_id w nil saga.saga_id rollback
        ∷ []
  received-inventory = received-commands "inventory.commands"

  received-shipment :
      received c violation "shipment.commands" event s
      ≡ cancel_shipment c (s.uuids (suc (suc s.drawn))) saga.shipment_id rollback saga.saga_id ∷ []
  received-shipment = received-commands "shipment.commands"

  -- A delivery.failed event of a started saga that has reserved in a warehouse and has a delivery,
  -- where the coordinator's table takes every status and runs on the in-memory queue. Let the
  -- coordinator handle the event, and let each service's worker, which had read its topic to the
  -- end, run over what it then yields. If the delivery service can read the delivery, and the
  -- inventory has unique identifiers and no record without its warehouse: the delivery is gone, and
  -- no other; the shipment's row is gone, and no other; and the inventory records of the shipment
  -- that are not shipped are received again, the others untouched.
  pub handle_failure_event-rolls_back :
      (fleet_env : Setup) (fleet : Fleet) (db_env : ShipmentRepository.Setup) (db : ShipmentDb)
      (depot : Depot)
      → Readable fleet_env d fleet
      → HasUniqueKeys record_key depot.inventory
      → IsReferential depot
      → let fleet' = (run fleet_env c (received c violation "delivery.commands" event s) fleet).1 in
        let db' =
          (ShipmentWorker.run
            (postgres db_env)
            c
            (received c violation "shipment.commands" event s)
            db).1 in
        let depot' =
          (WarehouseWorker.run c (received c violation "inventory.commands" event s) depot).1 in
        ((j : ℕ) → row_at j fleet' ≡ (if d == j then none else row_at j fleet))
        × ((j : ℕ)
            → ShipmentTable.row_at j db'
              ≡ (if saga.shipment_id == j then none else ShipmentTable.row_at j db))
        × ((k : ℕ) (row : InventoryRecord)
            → record_at k depot ≡ some row
            → Receives (row.shipment_id == saga.shipment_id) k row depot')
  handle_failure_event-rolls_back fleet_env fleet db_env db depot readable unique there = (
    λ j. rw received-delivery (
        run-unassign_courier c (s.uuids s.drawn) saga.saga_id failure fleet_env d j fleet readable),
    λ j. rw received-shipment (
        run-cancel_shipment c (s.uuids (suc (suc s.drawn))) saga.saga_id rollback db_env
          saga.shipment_id j db),
    λ k row held. rw received-inventory (
        run-release_inventory c (s.uuids (suc s.drawn)) saga.saga_id rollback saga.shipment_id w
          depot unique there k row held),
  )
