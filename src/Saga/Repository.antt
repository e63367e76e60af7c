-- ===== src/Saga/Repository.antt =====
-- The coordinator's process and database, and
-- services/saga_coordinator/src/infra/db/saga_instance.py: AsyncPostgresSagaRepository.
-- A row holds a status as the member whose `value` its column has.
use supply_chain_tracker.Prelude.{
  ℕ, suc, String, Bool, ◌||◌, Option, none, some, List, [], ◌∷◌, ◌==◌, str_eq, filter,
}
use supply_chain_tracker.Outcome.{Error, Outcome, returns, raises}
use supply_chain_tracker.Exec.{Exec, gets}
use supply_chain_tracker.Table.{Table, find, upsert, stored, order_by, order_by_desc}
use supply_chain_tracker.Messaging.Base.{Command}
use supply_chain_tracker.Messaging.Codec.{Codec}
use supply_chain_tracker.Messaging.Memory.{Broker}
use supply_chain_tracker.Saga.Entity.{SagaStatus, value, SagaInstance}

-- `clock` and `uuids` give the readings of the clock and the draws of `uuid4` to come, counted by
-- `ticks` and `drawn`.
pub record Coordinator : Type 0 where
  pub sagas : Table SagaInstance
  pub broker : Broker
  pub clock : ℕ → ℕ
  pub ticks : ℕ
  pub uuids : ℕ → ℕ
  pub drawn : ℕ

-- What the coordinator is set up with: the standard library's texts; the constraints of the table,
-- as the exception that a row with a status raises, if any; and the queue's `publish_command`
-- (command, topic, instant), which may raise.
pub record Setup : Type 0 where
  pub codec : Codec
  pub violation : String → Option Error
  pub publish_command : Command → String → ℕ → Broker → Outcome (Unit {0}) × Broker

-- `datetime.now(timezone.utc)`
abbrev pub now : Exec Coordinator ℕ
now s = (returns (s.clock s.ticks), record s { ticks = suc s.ticks })

-- `uuid.uuid4()`
abbrev pub uuid4 : Exec Coordinator ℕ
uuid4 s = (returns (s.uuids s.drawn), record s { drawn = suc s.drawn })

abbrev pub saga_key : SagaInstance → ℕ
saga_key saga = saga.saga_id

-- DO UPDATE SET leaves saga_id, saga_type, shipment_id and started_at
abbrev pub merge : SagaInstance → SagaInstance → SagaInstance
merge old new = record old {
  warehouse_id = new.warehouse_id;
  delivery_id = new.delivery_id;
  status = new.status;
  updated_at = new.updated_at;
  failed_step = new.failed_step;
  error_message = new.error_message;
}

unfoldable pub save : Setup → SagaInstance → Exec Coordinator SagaInstance
save env saga s = elim (env.violation (value saga.status)) [
  | some e ↦ (raises e, s)
  | none ↦ (
    returns (stored saga_key merge saga s.sagas),
    record s { sagas = upsert saga_key merge saga s.sagas },
  )
]

unfoldable pub get : ℕ → Exec Coordinator (Option SagaInstance)
get saga_id = gets (λ s. find saga_key saga_id s.sagas)

abbrev pub head : List SagaInstance → Option SagaInstance
head [] = none
head (saga ∷ sagas) = some saga

unfoldable pub get_by_shipment : ℕ → Exec Coordinator (Option SagaInstance)
get_by_shipment shipment_id = gets (λ s. head (
    order_by_desc (λ saga. saga.started_at)
      (filter (λ saga. saga.shipment_id == shipment_id) s.sagas)))

-- `status IN ($1, $2)`
abbrev pub is_active : SagaInstance → Bool
is_active saga =
    str_eq (value saga.status) (value SagaStatus.started)
    || str_eq (value saga.status) (value SagaStatus.compensating)

unfoldable pub list_active : Exec Coordinator (List SagaInstance)
list_active = gets (λ s. order_by (λ saga. saga.updated_at) (filter is_active s.sagas))
