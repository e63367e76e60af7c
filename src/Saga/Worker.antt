-- ===== src/Saga/Worker.antt =====
-- services/saga_coordinator/src/app/workers/compensation_worker.py: SagaCompensationWorker
-- Logging is left out: it changes nothing that the worker reads.
use Prim.Native.String.{◌++◌ as ◌+++◌}
use supply_chain_tracker.Prelude.{
  String, Bool, ◌||◌, Option, none, some, List, [], ◌∷◌, if◌then◌else◌, str_eq,
}
use supply_chain_tracker.Outcome.{returns, raises, value_error}
use supply_chain_tracker.Exec.{Exec, pure, swallow, for_each, ◌>>=◌, ◌>>◌}
use supply_chain_tracker.Messaging.Value.{Value, text, Fields, nil}
use supply_chain_tracker.Messaging.Value
use supply_chain_tracker.Messaging.Base.{Event, Command}
use supply_chain_tracker.Messaging.Commands.{release_inventory, cancel_shipment, unassign_courier}
use supply_chain_tracker.Saga.Entity.{SagaStatus, value, SagaInstance}
use supply_chain_tracker.Saga.Repository.{Coordinator, Setup, now, uuid4}
use supply_chain_tracker.Saga.Service

-- `payload.get(key, default)`
abbrev pub get_or : String → Fields → Value → Value
get_or key d default = elim (Value.get key d) [ none ↦ default | some v ↦ v ]

-- `saga.status.value in ("completed", "compensating", "failed")`
abbrev pub is_settled : SagaStatus → Bool
is_settled s =
    str_eq (value s) "completed" || str_eq (value s) "compensating" || str_eq (value s) "failed"

-- `except ValueError`: what was raised, or the value
abbrev pub catch_value_error : {A : Type 0} → Exec Coordinator A → Exec Coordinator (Option A)
catch_value_error m s =
    let (r, s') = m s in
    elim r [
      | returns a ↦ (returns (some a), s')
      | raises e ↦ elim e [ value_error ↦ (returns none, s') | other ↦ (raises other, s') ]
    ]

module _ (env : Setup) where
  -- `await self.queue.publish_command(command, topic)`
  abbrev pub publish : Command → String → Exec Coordinator (Unit {0})
  publish command topic = do
    t ← now
    λ s. let (r, b) = env.publish_command command topic t s.broker in (r, record s { broker = b })

  unfoldable pub compensate_inventory : SagaInstance → Value → Exec Coordinator (Unit {0})
  unfolding release_inventory
  compensate_inventory saga reason = elim saga.warehouse_id [
    | none ↦ pure tt
    | some warehouse_id ↦ do
      command_id ← uuid4
      publish
          (release_inventory env.codec command_id saga.shipment_id warehouse_id nil saga.saga_id
            reason)
          "inventory.commands"
  ]

  unfoldable pub compensate_shipment : SagaInstance → Value → Exec Coordinator (Unit {0})
  unfolding cancel_shipment
  compensate_shipment saga reason = do
    command_id ← uuid4
    publish (cancel_shipment env.codec command_id saga.shipment_id reason saga.saga_id)
        "shipment.commands"

  unfoldable pub compensate_delivery : SagaInstance → Value → Exec Coordinator (Unit {0})
  unfolding unassign_courier
  compensate_delivery saga reason = elim saga.delivery_id [
    | none ↦ pure tt
    | some delivery_id ↦ do
      command_id ← uuid4
      publish (unassign_courier env.codec command_id delivery_id saga.saga_id reason)
          "delivery.commands"
  ]

  unfoldable pub execute_compensation_strategy : SagaInstance → Event → Exec Coordinator (Unit {0})
  execute_compensation_strategy saga event =
      let failure_reason =
        get_or "reason" event.payload (text ("Triggered by " +++ event.event_type)) in
      if str_eq event.event_type "delivery.failed"
      then (do
        compensate_delivery saga failure_reason
        compensate_inventory saga (text "Delivery failed rollback")
        compensate_shipment saga (text "Delivery failed rollback"))
      else if str_eq event.event_type "courier.unassigned"
      then (do
        compensate_inventory saga (text "Courier unassigned rollback")
        compensate_shipment saga (text "Courier unassigned rollback"))
      else if str_eq event.event_type "inventory.insufficient"
      then compensate_shipment saga (text "Inventory insufficient")
      else pure tt

  -- after the guards: trigger, compensate, fail
  unfoldable pub compensate : SagaInstance → Event → Exec Coordinator (Unit {0})
  compensate saga event = do
    triggered ← catch_value_error (Service.trigger_compensation env saga.saga_id event.event_type)
    elim triggered [
      | none ↦ pure tt
      | some saga' ↦ do
        execute_compensation_strategy saga' event
        Service.fail_saga env saga'.saga_id event.event_type
            ("Compensation triggered by " +++ event.event_type)
        pure tt
    ]

  unfoldable pub handle_failure_event : Event → Exec Coordinator (Unit {0})
  handle_failure_event event = elim event.correlation_id [
    | none ↦ pure tt
    | some saga_id ↦ do
      found ← Service.get saga_id
      elim found [
        | none ↦ pure tt
        | some saga ↦ if is_settled saga.status then pure tt else compensate saga event
      ]
  ]

  -- the loop of `run` over the events that the queue yields
  unfoldable pub run : List Event → Exec Coordinator (Unit {0})
  run events = for_each events (λ event. swallow tt (handle_failure_event event))

-- `error_topics` of `run`
abbrev pub error_topics : List String
error_topics = "inventory.insufficient" ∷ "delivery.failed" ∷ "courier.unassigned" ∷ []
