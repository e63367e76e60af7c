-- ===== src/Saga/Service.antt =====
-- services/saga_coordinator/src/app/services/saga_instance.py: SagaService
use supply_chain_tracker.Prelude.{
  ℕ, String, Bool, true, false, not, ◌||◌, Option, none, some, List, if◌then◌else◌, str_eq,
}
use supply_chain_tracker.Outcome.{value_error}
use supply_chain_tracker.Exec.{Exec, pure, raise, or_raise, ◌>>=◌}
use supply_chain_tracker.Saga.Entity.{
  SagaStatus, started, completed, failed, compensating, value, is_started, SagaInstance,
  mark_completed, mark_failed, mark_compensating,
}
use supply_chain_tracker.Saga.Repository
use supply_chain_tracker.Saga.Repository.{Coordinator, Setup, now}

abbrev pub is_final : SagaStatus → Bool
is_final s = str_eq (value s) (value completed) || str_eq (value s) (value failed)

-- the `kwargs` that are truthy replace the identifiers
abbrev pub set_warehouse : Option ℕ → SagaInstance → SagaInstance
set_warehouse none saga = saga
set_warehouse (some w) saga = record saga { warehouse_id = some w }

abbrev pub set_delivery : Option ℕ → SagaInstance → SagaInstance
set_delivery none saga = saga
set_delivery (some d) saga = record saga { delivery_id = some d }

abbrev pub given : Option ℕ → Bool
given none = false
given (some u) = true

unfoldable pub get : ℕ → Exec Coordinator (Option SagaInstance)
unfolding Repository.get
get saga_id = Repository.get saga_id

unfoldable pub get_by_shipment : ℕ → Exec Coordinator (Option SagaInstance)
unfolding Repository.get_by_shipment
get_by_shipment shipment_id = Repository.get_by_shipment shipment_id

unfoldable pub list_active_sagas : Exec Coordinator (List SagaInstance)
unfolding Repository.list_active
list_active_sagas = Repository.list_active

-- the first lines of each method: `saga = await self._repository.get(saga_id)`, or ValueError
abbrev pub fetch : ℕ → Exec Coordinator SagaInstance
unfolding Repository.get
fetch saga_id = do found ← Repository.get saga_id; or_raise found value_error

module _ (env : Setup) where
  unfoldable pub create : SagaInstance → Exec Coordinator SagaInstance
  unfolding Repository.save
  create saga = Repository.save env saga

  unfoldable pub update_context : ℕ → Option ℕ → Option ℕ → Exec Coordinator SagaInstance
  unfolding Repository.save Repository.get
  update_context saga_id warehouse_id delivery_id = do
    saga ← fetch saga_id
    let changed = set_delivery delivery_id (set_warehouse warehouse_id saga)
    if given warehouse_id || given delivery_id then Repository.save env changed else pure saga

  unfoldable pub complete_saga : ℕ → Exec Coordinator SagaInstance
  unfolding Repository.save Repository.get
  complete_saga saga_id = do
    saga ← fetch saga_id
    if not (is_started saga.status)
        then pure saga
        else do t ← now; Repository.save env (mark_completed t saga)

  unfoldable pub fail_saga : ℕ → String → String → Exec Coordinator SagaInstance
  unfolding Repository.save Repository.get
  fail_saga saga_id step error_message = do
    saga ← fetch saga_id
    t ← now
    Repository.save env (mark_failed t step error_message saga)

  unfoldable pub trigger_compensation : ℕ → String → Exec Coordinator SagaInstance
  unfolding Repository.save Repository.get
  trigger_compensation saga_id failed_step = do
    saga ← fetch saga_id
    if is_final saga.status
        then raise value_error
        else do t ← now; Repository.save env (mark_compensating t failed_step saga)

unfoldable pub is_saga_active : ℕ → Exec Coordinator Bool
unfolding Repository.get
is_saga_active saga_id = do
  found ← Repository.get saga_id
  pure (elim found [
    | none ↦ false
    | some saga ↦
        str_eq (value saga.status) (value started)
        || str_eq (value saga.status) (value compensating)
  ])
