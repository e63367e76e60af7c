-- ===== src/Saga/Failures.antt =====
-- A queue that raises, and a table that refuses.
use supply_chain_tracker.Prelude.{
  suc, String, ◌≡◌, refl, Option, none, some, true, false, ◌||◌, str_eq, if◌then◌else◌,
  Option-cases, inl, inr, ==_refl, ap, ◌∙◌, Bool,
}
use supply_chain_tracker.Outcome.{Outcome, Error, returns, raises, check_violation}
use supply_chain_tracker.Exec.{Exec, pure, ◌>>◌}
use supply_chain_tracker.Table.{find, stored}
use supply_chain_tracker.Messaging.Value.{Value}
use supply_chain_tracker.Messaging.Base.{Event}
use supply_chain_tracker.Saga.Entity.{
  SagaStatus, started, completed, failed, compensating, value, SagaInstance,
}
use supply_chain_tracker.Saga.Repository.{Coordinator, Setup, save, saga_key}
use supply_chain_tracker.Saga.Laws.{
  saga_at, with_saga, Accepts, saga_at-with_saga, trigger_compensation_ok,
}
use supply_chain_tracker.Saga.Worker.{
  catch_value_error, compensate_inventory, compensate_shipment, compensate_delivery,
  execute_compensation_strategy, compensate, handle_failure_event,
}
use supply_chain_tracker.Saga.Compensation.{
  marked, handle_failure_event-settled, handle_failure_event-started,
}

-- The action leaves the sagas alone, whether it returns or raises.
record LeavesSagas {A : Type 0} (m : Exec Coordinator A) : Type 0 where
  at : (s : Coordinator) → (m s).1.sagas ≡ s.sagas

LeavesSagas->> :
    {A B : Type 0} (m : Exec Coordinator A) (n : Exec Coordinator B)
    → LeavesSagas m
    → LeavesSagas n
    → LeavesSagas (m >> n)
LeavesSagas->> {A} m n hm hn = record { at = λ s. go s (m s).0 refl }
  where
    go : (s : Coordinator) (r : Outcome A) → (m s).0 ≡ r → ((m >> n) s).1.sagas ≡ s.sagas
    go s (returns a) e = rw e (hn.at (m s).1 ∙ hm.at s)
    go s (raises x) e = rw e (hm.at s)

LeavesSagas-if :
    {A : Type 0} (b : Bool) (m n : Exec Coordinator A)
    → LeavesSagas m
    → LeavesSagas n
    → LeavesSagas (if b then m else n)
LeavesSagas-if true m n hm hn = hm
LeavesSagas-if false m n hm hn = hn

LeavesSagas-pure : LeavesSagas (pure tt)
LeavesSagas-pure = record { at = λ s. refl }

module _ (env : Setup) (saga : SagaInstance) where
  inventory-LeavesSagas : (reason : Value) → LeavesSagas (compensate_inventory env saga reason)
  unfolding compensate_inventory
  inventory-LeavesSagas reason = record {
    at = λ s. elim (Option-cases saga.warehouse_id) [
      | inl e ↦ rw (e, compensate_inventory)
      | inr (w, e) ↦ rw (e, compensate_inventory)
    ];
  }

  delivery-LeavesSagas : (reason : Value) → LeavesSagas (compensate_delivery env saga reason)
  unfolding compensate_delivery
  delivery-LeavesSagas reason = record {
    at = λ s. elim (Option-cases saga.delivery_id) [
      | inl e ↦ rw (e, compensate_delivery)
      | inr (d, e) ↦ rw (e, compensate_delivery)
    ];
  }

  shipment-LeavesSagas : (reason : Value) → LeavesSagas (compensate_shipment env saga reason)
  unfolding compensate_shipment
  shipment-LeavesSagas reason = record { at = λ s. refl }

  ruleset leaves_rules = (
    LeavesSagas->>, LeavesSagas-if, LeavesSagas-pure, inventory-LeavesSagas, delivery-LeavesSagas,
    shipment-LeavesSagas,
  )

  strategy-LeavesSagas :
      (event : Event) → LeavesSagas (execute_compensation_strategy env saga event)
  unfolding execute_compensation_strategy
  strategy-LeavesSagas event = search leaves_rules depth 8

-- The state in which the strategy starts: the saga is marked, and nothing has been sent.
abbrev pub marked_state : SagaInstance → Event → Coordinator → Coordinator
marked_state saga event s = with_saga (marked saga event s) (record s { ticks = suc s.ticks })

compensate-raises :
    (env : Setup)
    → Accepts env
    → (saga : SagaInstance) (event : Event) (s : Coordinator) (x : Error)
    → saga_at saga.saga_id s ≡ some saga
    → saga.status ≡ started
    → (execute_compensation_strategy env (marked saga event s) event (marked_state saga event s)).0
      ≡ raises x
    → compensate env saga event s ≡ (
      raises x,
      (execute_compensation_strategy env (marked saga event s) event (marked_state saga event s)).1,
    )
unfolding compensate
compensate-raises env ok saga event s x found live broken =
    let triggered = trigger_compensation_ok env ok saga s found event.event_type (rw live) in
    rw (triggered, catch_value_error) (rw triggered (rw broken))

saga_at-marked_state :
    (saga : SagaInstance) (event : Event) (s : Coordinator)
    → saga_at saga.saga_id s ≡ some saga
    → saga_at saga.saga_id (marked_state saga event s) ≡ some (marked saga event s)
saga_at-marked_state saga event s found =
    rw (saga_at-with_saga saga.saga_id (marked saga event s) s)
      (rw (==_refl saga.saga_id) (rw (found, stored)))

-- A failure event of a started saga, where the table takes every status and the queue raises while
-- the compensating commands go out: the exception leaves the handler, and the saga stays marked as
-- compensating; from then on no failure event of the saga, a redelivery of the same one included,
-- changes anything or publishes any command. The commands that were not sent are never sent.
pub handle_failure_event-abandoned :
    (env : Setup)
    → Accepts env
    → (event : Event) (s : Coordinator) (saga : SagaInstance) (x : Error)
    → event.correlation_id ≡ some saga.saga_id
    → saga_at saga.saga_id s ≡ some saga
    → saga.status ≡ started
    → (execute_compensation_strategy env (marked saga event s) event (marked_state saga event s)).0
      ≡ raises x
    → let (result, s') = handle_failure_event env event s in
      (result ≡ raises x)
      × (saga_at saga.saga_id s' ≡ some (marked saga event s))
      × ((later : Event)
          → later.correlation_id ≡ some saga.saga_id
          → handle_failure_event env later s' ≡ (returns tt, s'))
handle_failure_event-abandoned env ok event s saga x correlated found live broken =
    rw (handle_failure_event-started env event s saga correlated found live) (
      rw (compensate-raises env ok saga event s x found live broken) (
        refl,
        still,
        λ later e. handle_failure_event-settled env later after saga.saga_id _ e still refl,
      ))
  where
    after : Coordinator
    after =
        (execute_compensation_strategy env (marked saga event s) event
          (marked_state saga event s)).1

    still : saga_at saga.saga_id after ≡ some (marked saga event s)
    still =
        ap (λ t. find saga_key saga.saga_id t)
          ((strategy-LeavesSagas env (marked saga event s) event).at (marked_state saga event s))
        ∙ saga_at-marked_state saga event s found

-- services/saga_coordinator/migrations/001_create_saga_instances.py: CHECK ck_saga_status
abbrev pub ck_saga_status : String → Option Error
ck_saga_status status =
    if str_eq status "STARTED"
      || str_eq status "COMPENSATING"
      || str_eq status "COMPLETED"
      || str_eq status "FAILED"
      || str_eq status "CANCELLED"
    then none
    else some check_violation

-- Against the table that the migration creates, whose constraint `ck_saga_status` lists the
-- statuses in upper case, every save of a saga, whatever its status, raises and writes nothing.
pub save-ck_saga_status :
    (env : Setup) (saga : SagaInstance) (s : Coordinator)
    → env.violation ≡ ck_saga_status
    → save env saga s ≡ (raises check_violation, s)
unfolding save
save-ck_saga_status env saga s e = rw (e, save) (rw (refused saga.status))
  where
    refused : (status : SagaStatus) → ck_saga_status (value status) ≡ some check_violation
    refused started = refl
    refused completed = refl
    refused failed = refl
    refused compensating = refl
