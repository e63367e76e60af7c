-- ===== src/Tests/Coordinator.antt =====
-- The compensation of a saga on the in-memory queue.
use supply_chain_tracker.Prelude.{ℕ, ◌≡◌, ◌≢◌, refl, none, some, List, [], ◌∷◌}
use supply_chain_tracker.Outcome.{returns}
use supply_chain_tracker.Saga.Entity.{failed}
use supply_chain_tracker.Saga.Laws.{saga_at}
use supply_chain_tracker.Saga.Plan.{orders, send_all, execute_compensation_strategy-send_all}
use supply_chain_tracker.Saga.Worker.{handle_failure_event, execute_compensation_strategy}
use supply_chain_tracker.Saga.Compensation.{
  failed_saga, after_orders, handle_failure_event-compensates, handle_failure_event-once,
}
use supply_chain_tracker.Saga.Lifecycle.{
  Operation, handle, complete, update, perform_all, HasStatus, perform_all-HasStatus,
}
use supply_chain_tracker.Tests.Fixtures.{codec, env, live, lost, coordinator, delivery_failed}

execute_compensation_strategy-send_all_example :
    execute_compensation_strategy env live delivery_failed coordinator
    ≡ (returns tt, send_all env (orders codec live delivery_failed) coordinator)
execute_compensation_strategy-send_all_example =
    execute_compensation_strategy-send_all env (λ m topic t b. refl) live delivery_failed
      coordinator

handle_failure_event-compensates_example :
    let (result, s') = handle_failure_event env delivery_failed coordinator in
    (result ≡ returns tt)
    × (saga_at 1 s' ≡ some (failed_saga env live delivery_failed coordinator))
    × ((k : ℕ) → k ≢ 1 → saga_at k s' ≡ saga_at k coordinator)
    × (s'.broker ≡ (after_orders env live delivery_failed coordinator).broker)
handle_failure_event-compensates_example =
    handle_failure_event-compensates env (λ status. refl) (λ m topic t b. refl) delivery_failed
      coordinator live refl refl refl

handle_failure_event-once_example :
    let s' = (handle_failure_event env delivery_failed coordinator).1 in
    handle_failure_event env delivery_failed s' ≡ (returns tt, s')
handle_failure_event-once_example =
    handle_failure_event-once env (λ status. refl) (λ m topic t b. refl) delivery_failed
      delivery_failed coordinator refl

-- failure events, a completion and an update, of both sagas
abbrev operations : List Operation
operations =
    handle delivery_failed
    ∷ handle (record delivery_failed { correlation_id = some 5 })
    ∷ complete 5
    ∷ update 5 (some 7) none
    ∷ complete 1
    ∷ []

perform_all-HasStatus_example : HasStatus failed 5 (perform_all env operations coordinator)
perform_all-HasStatus_example =
    perform_all-HasStatus env (λ status. refl) (λ m topic t b. refl) failed (λ e. cc) 5 operations
      coordinator (lost, refl, refl)
