-- ===== src/Saga/Compensation.antt =====
-- What handling a failure event does to the sagas and to the command topics.
use Prim.Native.String.{◌++◌ as ◌+++◌}
use supply_chain_tracker.Prelude.{
  ℕ, suc, String, ◌≡◌, ◌≢◌, ◌⊎◌, refl, sym, ap, ◌∙◌, true, none, some, ◌==◌, if◌then◌else◌, arith,
  Bool-cases, Option-cases, inl, inr, ==_refl,
}
use supply_chain_tracker.Outcome.{returns}
use supply_chain_tracker.Table.{upsert, stored}
use supply_chain_tracker.Table.Laws.{key-find}
use supply_chain_tracker.Messaging.Base.{Event}
use supply_chain_tracker.Saga.Entity.{
  SagaStatus, started, completed, failed, compensating, SagaInstance, mark_compensating,
  mark_failed,
}
use supply_chain_tracker.Saga.Repository.{Coordinator, Setup, saga_key, merge}
use supply_chain_tracker.Saga.Service
use supply_chain_tracker.Saga.Laws.{
  saga_at, with_saga, Accepts, saga_at-with_saga, trigger_compensation_ok, fail_saga_ok,
}
use supply_chain_tracker.Saga.Worker.{
  is_settled, catch_value_error, compensate, handle_failure_event,
}
use supply_chain_tracker.Saga.Plan.{
  Delivers, orders, send_all, send_all-sagas, execute_compensation_strategy-send_all,
}

-- The message that a failed saga gets.
abbrev pub failure_message : Event → String
failure_message event = "Compensation triggered by " +++ event.event_type

-- The state after the orders for a failed saga have gone out.
abbrev pub after_orders : Setup → SagaInstance → Event → Coordinator → Coordinator
after_orders env saga event s =
    send_all env (orders env.codec saga event) (record s { ticks = suc s.ticks })

-- The saga as the compensation leaves it.
abbrev pub failed_saga : Setup → SagaInstance → Event → Coordinator → SagaInstance
failed_saga env saga event s =
    let s' = after_orders env saga event s in
    mark_failed (s'.clock s'.ticks) event.event_type (failure_message event) saga

-- The saga while it is compensated.
abbrev pub marked : SagaInstance → Event → Coordinator → SagaInstance
marked saga event s = mark_compensating (s.clock s.ticks) event.event_type saga

-- The orders have gone out, and the saga is marked.
abbrev pub sent : Setup → SagaInstance → Event → Coordinator → Coordinator
sent env saga event s = record (after_orders env saga event s) {
  sagas = upsert saga_key merge (marked saga event s) s.sagas;
}

-- The state that a compensation leaves.
abbrev pub compensated : Setup → SagaInstance → Event → Coordinator → Coordinator
compensated env saga event s =
    with_saga (failed_saga env saga event s)
      (record (sent env saga event s) { ticks = suc (sent env saga event s).ticks })

sent-found :
    (env : Setup) (saga : SagaInstance) (event : Event) (s : Coordinator)
    → saga_at saga.saga_id s ≡ some saga
    → saga_at saga.saga_id (sent env saga event s) ≡ some (marked saga event s)
sent-found env saga event s found =
    rw (saga_at-with_saga saga.saga_id (marked saga event s) s)
      (rw (==_refl saga.saga_id) (rw (found, stored)))

compensate_ok :
    (env : Setup)
    → Accepts env
    → Delivers env
    → (saga : SagaInstance) (event : Event) (s : Coordinator) → saga_at saga.saga_id s ≡ some saga
    → saga.status ≡ started
    → compensate env saga event s ≡ (returns tt, compensated env saga event s)
unfolding compensate
compensate_ok env ok delivers saga event s found live =
    let triggered = trigger_compensation_ok env ok saga s found event.event_type (rw live) in
    let m = marked saga event s in
    rw (triggered, catch_value_error)
      (rw (execute_compensation_strategy-send_all env delivers m event _) (
        rw triggered (
          rw
            (send_all-sagas env (orders env.codec saga event) (record s { ticks = suc s.ticks })
              (upsert saga_key merge m s.sagas))
            (rw (
              fail_saga_ok env ok m (sent env saga event s) (sent-found env saga event s found)
                event.event_type (failure_message event))))))

pub handle_failure_event-uncorrelated :
    (env : Setup) (event : Event) (s : Coordinator)
    → event.correlation_id ≡ none
    → handle_failure_event env event s ≡ (returns tt, s)
unfolding handle_failure_event
handle_failure_event-uncorrelated env event s e = rw e

pub handle_failure_event-missing :
    (env : Setup) (event : Event) (s : Coordinator) (k : ℕ)
    → event.correlation_id ≡ some k
    → saga_at k s ≡ none
    → handle_failure_event env event s ≡ (returns tt, s)
unfolding handle_failure_event Service.get
handle_failure_event-missing env event s k e missing = rw e (rw missing)

pub handle_failure_event-settled :
    (env : Setup) (event : Event) (s : Coordinator) (k : ℕ) (saga : SagaInstance)
    → event.correlation_id ≡ some k
    → saga_at k s ≡ some saga
    → is_settled saga.status ≡ true
    → handle_failure_event env event s ≡ (returns tt, s)
unfolding handle_failure_event Service.get
handle_failure_event-settled env event s k saga e found settled = rw e (rw found (rw settled))

pub handle_failure_event-started :
    (env : Setup) (event : Event) (s : Coordinator) (saga : SagaInstance)
    → event.correlation_id ≡ some saga.saga_id
    → saga_at saga.saga_id s ≡ some saga
    → saga.status ≡ started
    → handle_failure_event env event s ≡ compensate env saga event s
unfolding handle_failure_event Service.get
handle_failure_event-started env event s saga e found live = rw e (rw found (rw live))

pub is_settled-cases : (status : SagaStatus) → (is_settled status ≡ true) ⊎ (status ≡ started)
is_settled-cases started = inr refl
is_settled-cases completed = inl refl
is_settled-cases failed = inl refl
is_settled-cases compensating = inl refl

-- What the state after a compensation shows of each saga.
saga_at-after :
    (env : Setup) (saga : SagaInstance) (event : Event) (s : Coordinator) (k : ℕ)
    → saga_at saga.saga_id s ≡ some saga
    → saga_at k (compensated env saga event s)
      ≡ (if saga.saga_id == k then some (failed_saga env saga event s) else saga_at k s)
saga_at-after env saga event s k found =
    rw
      (saga_at-with_saga k (failed_saga env saga event s)
        (record (sent env saga event s) { ticks = suc (sent env saga event s).ticks }))
      (rw (sent-found env saga event s found, stored)
        (rw (saga_at-with_saga k (marked saga event s) s)
          (elim (Bool-cases (saga.saga_id == k)) [ inl e ↦ rw e | inr e ↦ rw e ])))

module _ (env : Setup) (ok : Accepts env) (delivers : Delivers env) where
  -- A failure event of a started saga, where the table takes every status and the queue does not
  -- raise: handling it returns; the saga is then failed, with the event as the failed step, and is
  -- otherwise as it was; no other saga has changed; and exactly the commands that the compensation
  -- table gives for the event have been published, in the table's order, those of steps that the
  -- saga had not come to left out.
  pub handle_failure_event-compensates :
      (event : Event) (s : Coordinator) (saga : SagaInstance)
      → event.correlation_id ≡ some saga.saga_id
      → saga_at saga.saga_id s ≡ some saga
      → saga.status ≡ started
      → let (result, s') = handle_failure_event env event s in
        (result ≡ returns tt)
        × (saga_at saga.saga_id s' ≡ some (failed_saga env saga event s))
        × ((k : ℕ) → k ≢ saga.saga_id → saga_at k s' ≡ saga_at k s)
        × (s'.broker ≡ (after_orders env saga event s).broker)
  handle_failure_event-compensates event s saga correlated found live =
      rw (handle_failure_event-started env event s saga correlated found live) (
        rw (compensate_ok env ok delivers saga event s found live) (
          refl,
          rw (saga_at-after env saga event s saga.saga_id found) (rw (==_refl saga.saga_id)),
          λ k other. rw (saga_at-after env saga event s k found) (ground arith),
          refl,
        ))

  -- Where the table takes every status and the queue does not raise: once a failure event of a
  -- saga has been handled, no further failure event of that saga, a redelivery of the same one
  -- included, changes anything or publishes any command.
  pub handle_failure_event-once :
      (event later : Event) (s : Coordinator)
      → later.correlation_id ≡ event.correlation_id
      → let s' = (handle_failure_event env event s).1 in
        handle_failure_event env later s' ≡ (returns tt, s')
  handle_failure_event-once event later s same = elim (Option-cases event.correlation_id) [
    | inl e ↦ handle_failure_event-uncorrelated env later _ (same ∙ e)
    | inr (k, e) ↦ elim (Option-cases (saga_at k s)) [
      | inl missing ↦
          rw (handle_failure_event-missing env event s k e missing)
            (handle_failure_event-missing env later s k (same ∙ e) missing)
      | inr (saga, found) ↦ elim (is_settled-cases saga.status) [
        | inl settled ↦
            rw (handle_failure_event-settled env event s k saga e found settled)
              (handle_failure_event-settled env later s k saga (same ∙ e) found settled)
        | inr live ↦
            let key = key-find saga_key k s.sagas found in
            let found' : saga_at saga.saga_id s ≡ some saga = ap (λ j. saga_at j s) key ∙ found in
            let correlated : event.correlation_id ≡ some saga.saga_id =
              e ∙ ap (λ j. some j) (sym key) in
            let after = compensated env saga event s in
            rw (handle_failure_event-started env event s saga correlated found' live) (
              rw (compensate_ok env ok delivers saga event s found' live) (
                handle_failure_event-settled env later after saga.saga_id
                  (failed_saga env saga event s) (same ∙ correlated)
                  (rw (saga_at-after env saga event s saga.saga_id found')
                    (rw (==_refl saga.saga_id)))
                  refl))
      ]
    ]
  ]
