-- ===== src/Tests/Sagas.antt =====
-- The router of the coordinator, a queue that fails, and the migration's table.
use supply_chain_tracker.Prelude.{◌≡◌, refl, none, some, [], ◌∷◌, str_eq, if◌then◌else◌}
use supply_chain_tracker.Outcome.{returns, raises, type_error, check_violation}
use supply_chain_tracker.Messaging.Base.{Event}
use supply_chain_tracker.Messaging.Memory.{publish_command}
use supply_chain_tracker.Saga.Entity.{started}
use supply_chain_tracker.Saga.Repository.{Setup, save}
use supply_chain_tracker.Saga.Laws.{saga_at}
use supply_chain_tracker.Saga.Worker.{
  handle_failure_event, execute_compensation_strategy, compensate_delivery, compensate_inventory,
  compensate_shipment,
}
use supply_chain_tracker.Saga.Compensation.{marked}
use supply_chain_tracker.Saga.Failures.{
  handle_failure_event-abandoned, ck_saga_status, save-ck_saga_status,
}
use supply_chain_tracker.Saga.Api.{SagaCreateDto, SagaUpdateDto, create_saga}
use supply_chain_tracker.Saga.ApiLaws.{create_saga-restarts}
use supply_chain_tracker.Tests.Fixtures.{codec, env, live, lost, coordinator, delivery_failed}

-- a queue that raises once the commands for the shipment service go out
abbrev broken : Setup
broken = record env {
  publish_command = λ command topic t b.
      if str_eq topic "shipment.commands"
      then (raises type_error, b)
      else (returns tt, publish_command codec command ((topic, t) ∷ []) b);
}

handle_failure_event-abandoned_example :
    let (result, s') = handle_failure_event broken delivery_failed coordinator in
    (result ≡ raises type_error)
    × (saga_at 1 s' ≡ some (marked live delivery_failed coordinator))
    × ((later : Event)
        → later.correlation_id ≡ some 1
        → handle_failure_event broken later s' ≡ (returns tt, s'))
unfolding execute_compensation_strategy compensate_delivery compensate_inventory compensate_shipment
handle_failure_event-abandoned_example =
    handle_failure_event-abandoned broken (λ status. refl) delivery_failed coordinator live
      type_error refl refl refl refl

abbrev migrated : Setup
migrated = record env { violation = ck_saga_status }

save-ck_saga_status_example : save migrated live coordinator ≡ (raises check_violation, coordinator)
save-ck_saga_status_example = save-ck_saga_status migrated live coordinator refl

abbrev request : SagaCreateDto
request = record {
  saga_id = 5;
  saga_type = "shipment_fulfillment";
  shipment_id = 2;
  warehouse_id = some 8;
  delivery_id = none;
}

create_saga-restarts_example :
    saga_at 5 (create_saga env request coordinator).1
    ≡ some (record lost {
      warehouse_id = some 8;
      delivery_id = none;
      status = started;
      updated_at = 101;
      failed_step = none;
      error_message = none;
    })
create_saga-restarts_example =
    create_saga-restarts env (λ status. refl) request coordinator lost refl

abbrev patch : SagaUpdateDto
patch = record {
  warehouse_id = some 9;
  delivery_id = none;
  status = some started;
  failed_step = some "none";
  error_message = none;
}
