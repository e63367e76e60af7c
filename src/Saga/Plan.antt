-- ===== src/Saga/Plan.antt =====
-- The compensation table of the README (section "Паттерн Saga"), as a specification of what the
-- worker sends.
use Prim.Native.String.{◌++◌ as ◌+++◌}
use supply_chain_tracker.Prelude.{
  ℕ, suc, String, ◌≡◌, refl, Option, none, some, List, [], ◌∷◌, ◌++◌, str_eq, if◌then◌else◌,
  Bool-cases, Option-cases, inl, inr,
}
use supply_chain_tracker.Outcome.{returns}
use supply_chain_tracker.Table.{Table}
use supply_chain_tracker.Messaging.Value.{Value, text, nil}
use supply_chain_tracker.Messaging.Codec.{Codec}
use supply_chain_tracker.Messaging.Base.{Event, Command}
use supply_chain_tracker.Messaging.Commands.{release_inventory, cancel_shipment, unassign_courier}
use supply_chain_tracker.Messaging.Memory.{Broker}
use supply_chain_tracker.Saga.Entity.{SagaInstance}
use supply_chain_tracker.Saga.Repository.{Coordinator, Setup}
use supply_chain_tracker.Saga.Worker.{
  get_or, execute_compensation_strategy, compensate_inventory, compensate_shipment,
  compensate_delivery,
}

-- The three compensating commands.
pub data Undo : Type 0 where
  unassign release cancel : Undo

-- Which commands a failure asks for, in order.
abbrev pub compensation_table : String → List Undo
compensation_table event_type =
    if str_eq event_type "delivery.failed"
    then unassign ∷ release ∷ cancel ∷ []
    else if str_eq event_type "courier.unassigned"
    then release ∷ cancel ∷ []
    else if str_eq event_type "inventory.insufficient"
    then cancel ∷ []
    else []

-- The reason that the commands after the first give.
abbrev pub rollback_reason : String → String
rollback_reason event_type =
    if str_eq event_type "delivery.failed"
    then "Delivery failed rollback"
    else if str_eq event_type "courier.unassigned"
    then "Courier unassigned rollback"
    else "Inventory insufficient"

-- A command, up to its fresh identifier, and the topic that it goes to.
pub record Order : Type 0 where
  pub command : ℕ → Command
  pub topic : String

module _ (c : Codec) (saga : SagaInstance) (failure rollback : Value) where
  abbrev pub release_order : Option ℕ → List Order
  release_order none = []
  release_order (some warehouse_id) =
      record {
        command =
            λ id. release_inventory c id saga.shipment_id warehouse_id nil saga.saga_id rollback;
        topic = "inventory.commands";
      }
      ∷ []

  abbrev pub unassign_order : Option ℕ → List Order
  unassign_order none = []
  unassign_order (some delivery_id) =
      record {
        command = λ id. unassign_courier c id delivery_id saga.saga_id failure;
        topic = "delivery.commands";
      }
      ∷ []

  -- What undoes one step of a saga: nothing, if the saga has not come to that step.
  abbrev pub order_of : Undo → List Order
  order_of unassign = unassign_order saga.delivery_id
  order_of release = release_order saga.warehouse_id
  order_of cancel =
      record {
        command = λ id. cancel_shipment c id saga.shipment_id rollback saga.saga_id;
        topic = "shipment.commands";
      }
      ∷ []

  abbrev pub orders_of : List Undo → List Order
  orders_of [] = []
  orders_of (u ∷ us) = order_of u ++ orders_of us

-- The orders that a failure event of a saga asks for.
abbrev pub orders : Codec → SagaInstance → Event → List Order
orders c saga event =
    orders_of c saga (get_or "reason" event.payload (text ("Triggered by " +++ event.event_type)))
      (text (rollback_reason event.event_type)) (compensation_table event.event_type)

-- The state after orders have gone out one by one.
abbrev pub send : Setup → Order → Coordinator → Coordinator
send env o s = record s {
  broker = (env.publish_command (o.command (s.uuids s.drawn)) o.topic (s.clock s.ticks) s.broker).1;
  ticks = suc s.ticks;
  drawn = suc s.drawn;
}

unfoldable pub send_all : Setup → List Order → Coordinator → Coordinator
send_all env [] s = s
send_all env (o ∷ os) s = send_all env os (send env o s)

-- The queue never raises.
abbrev pub Delivers : Setup → Type 0
Delivers env =
    (m : Command) (topic : String) (t : ℕ) (b : Broker)
    → (env.publish_command m topic t b).0 ≡ returns tt

pub send_all-sagas :
    (env : Setup) (os : List Order) (s : Coordinator) (t : Table SagaInstance)
    → send_all env os (record s { sagas = t }) ≡ record (send_all env os s) { sagas = t }
unfolding send_all
send_all-sagas env [] s t = refl
send_all-sagas env (o ∷ os) s t = send_all-sagas env os (send env o s) t

pub send_all-append :
    (env : Setup) (os ps : List Order) (s : Coordinator)
    → send_all env (os ++ ps) s ≡ send_all env ps (send_all env os s)
unfolding send_all
send_all-append env [] ps s = refl
send_all-append env (o ∷ os) ps s = send_all-append env os ps (send env o s)

module _ (env : Setup) (delivers : Delivers env) (saga : SagaInstance) where
  compensate_inventory-send_all :
      (failure rollback : Value) (s : Coordinator)
      → compensate_inventory env saga rollback s
        ≡ (returns tt, send_all env (order_of env.codec saga failure rollback release) s)
  unfolding send_all compensate_inventory
  compensate_inventory-send_all failure rollback s = elim (Option-cases saga.warehouse_id) [
    | inl e ↦ rw (e, compensate_inventory)
    | inr (w, e) ↦ rw (e, compensate_inventory) (rw delivers)
  ]

  compensate_delivery-send_all :
      (failure rollback : Value) (s : Coordinator)
      → compensate_delivery env saga failure s
        ≡ (returns tt, send_all env (order_of env.codec saga failure rollback unassign) s)
  unfolding send_all compensate_delivery
  compensate_delivery-send_all failure rollback s = elim (Option-cases saga.delivery_id) [
    | inl e ↦ rw (e, compensate_delivery)
    | inr (d, e) ↦ rw (e, compensate_delivery) (rw delivers)
  ]

  compensate_shipment-send_all :
      (failure rollback : Value) (s : Coordinator)
      → compensate_shipment env saga rollback s
        ≡ (returns tt, send_all env (order_of env.codec saga failure rollback cancel) s)
  unfolding send_all compensate_shipment
  compensate_shipment-send_all failure rollback s = rw delivers

  -- The strategy sends the orders of the table, and changes nothing else.
  pub execute_compensation_strategy-send_all :
      (event : Event) (s : Coordinator)
      → execute_compensation_strategy env saga event s
        ≡ (returns tt, send_all env (orders env.codec saga event) s)
  unfolding execute_compensation_strategy
  execute_compensation_strategy-send_all event s =
      elim (Bool-cases (str_eq event.event_type "delivery.failed")) [
        | inl e ↦ rw e (
            rw (compensate_delivery-send_all failure (text "Delivery failed rollback") s) (
              rw (compensate_inventory-send_all failure (text "Delivery failed rollback") _) (
                rw (compensate_shipment-send_all failure (text "Delivery failed rollback") _)
                  (rw (send_all-append, send_all-append)))))
        | inr not_delivery ↦ elim (Bool-cases (str_eq event.event_type "courier.unassigned")) [
          | inl e ↦
              rw (not_delivery, e)
                (rw (compensate_inventory-send_all failure (text "Courier unassigned rollback") s) (
                  rw (compensate_shipment-send_all failure (text "Courier unassigned rollback") _)
                    (rw send_all-append)))
          | inr not_courier ↦ elim (Bool-cases (str_eq event.event_type "inventory.insufficient")) [
            | inl e ↦
                rw (not_delivery, not_courier, e)
                  (compensate_shipment-send_all failure (text "Inventory insufficient") s)
            | inr e ↦ rw (not_delivery, not_courier, e) (unfold send_all in refl)
          ]
        ]
      ]
    where
      failure : Value
      failure = get_or "reason" event.payload (text ("Triggered by " +++ event.event_type))
