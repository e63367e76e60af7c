-- ===== src/Saga/Lifecycle.antt =====
-- The life of a saga under the operations of the coordinator, in any order.
use supply_chain_tracker.Prelude.{
  ℕ, suc, ◌≡◌, ◌≢◌, ◌⊎◌, refl, sym, ap, ◌∙◌, false, ◌||◌, Option, none, some, List, [], ◌∷◌, ◌==◌,
  Bool-cases, Option-cases, inl, inr, ==_sound,
}
use supply_chain_tracker.Table.{stored}
use supply_chain_tracker.Table.Laws.{key-find}
use supply_chain_tracker.Messaging.Base.{Event}
use supply_chain_tracker.Saga.Entity.{
  SagaStatus, started, completed, failed, compensating, SagaInstance, is_started, mark_completed,
}
use supply_chain_tracker.Saga.Repository.{Coordinator, Setup, saga_key, merge}
use supply_chain_tracker.Saga.Service
use supply_chain_tracker.Saga.Service.{is_final, set_warehouse, set_delivery, given}
use supply_chain_tracker.Saga.Laws.{saga_at, with_saga, Accepts, saga_at-with_saga, save_ok}
use supply_chain_tracker.Saga.Worker.{handle_failure_event}
use supply_chain_tracker.Saga.Plan.{Delivers}
use supply_chain_tracker.Saga.Compensation.{
  handle_failure_event-compensates, handle_failure_event-uncorrelated, handle_failure_event-missing,
  handle_failure_event-settled, is_settled-cases,
}

-- The operations on existing sagas.
pub data Operation : Type 0 where
  handle : Event → Operation
  complete : ℕ → Operation
  update : ℕ → Option ℕ → Option ℕ → Operation

abbrev pub perform : Setup → Operation → Coordinator → Coordinator
perform env (handle event) s = (handle_failure_event env event s).1
perform env (complete k) s = (Service.complete_saga env k s).1
perform env (update k w d) s = (Service.update_context env k w d s).1

abbrev pub perform_all : Setup → List Operation → Coordinator → Coordinator
perform_all env [] s = s
perform_all env (op ∷ ops) s = perform_all env ops (perform env op s)

-- A saga that is found with a status.
abbrev pub HasStatus : SagaStatus → ℕ → Coordinator → Type 0
HasStatus status k s = (saga : SagaInstance) × (saga_at k s ≡ some saga) × (saga.status ≡ status)

-- Saving a saga over another leaves the saved status under its identifier, and every other saga.
HasStatus-with_saga :
    (status : SagaStatus) (k : ℕ) (new : SagaInstance) (s : Coordinator)
    → HasStatus status k s
    → (new.saga_id ≡ k → new.status ≡ status)
    → HasStatus status k (with_saga new s)
HasStatus-with_saga status k new s (saga, found, e) same = elim (Bool-cases (new.saga_id == k)) [
  | inr other ↦ (saga, rw (saga_at-with_saga k new s) (rw other found), e)
  | inl here ↦ (
    merge saga new,
    rw (saga_at-with_saga k new s)
        (rw here (rw (ap (λ j. saga_at j s) (==_sound new.saga_id k here) ∙ found, stored))),
    same (==_sound new.saga_id k here),
  )
]

is_started-cases : (status : SagaStatus) → (is_started status ≡ false) ⊎ (status ≡ started)
is_started-cases started = inr refl
is_started-cases completed = inl refl
is_started-cases failed = inl refl
is_started-cases compensating = inl refl

-- Two sagas that are found under one identifier have one status.
found-status :
    (k : ℕ) (s : Coordinator) (a b : SagaInstance)
    → saga_at k s ≡ some a
    → saga_at k s ≡ some b
    → a.status ≡ b.status
found-status k s a b p q = ap status_or (sym p ∙ q)
  where
    status_or : Option SagaInstance → SagaStatus
    status_or none = started
    status_or (some saga) = saga.status

module _ (env : Setup) (ok : Accepts env) where
  -- `complete_saga` leaves every saga, or marks one that was started.
  complete_saga-cases :
      (k : ℕ) (s : Coordinator)
      → ((Service.complete_saga env k s).1 ≡ s)
        ⊎ ((saga : SagaInstance) × (saga_at k s ≡ some saga)
            × (saga.status ≡ started)
            × ((Service.complete_saga env k s).1
                ≡ with_saga
                    (mark_completed (s.clock s.ticks) saga)
                    (record s { ticks = suc s.ticks })))
  unfolding Service.complete_saga
  complete_saga-cases k s = elim (Option-cases (saga_at k s)) [
    | inl missing ↦ inl (rw missing)
    | inr (saga, found) ↦ elim (is_started-cases saga.status) [
      | inl e ↦ inl (rw found (rw e))
      | inr e ↦ inr (saga, found, e, rw found (rw e (rw (save_ok env ok))))
    ]
  ]

  -- `update_context` leaves every saga, or saves one with its status.
  update_context-cases :
      (k : ℕ) (w d : Option ℕ) (s : Coordinator)
      → ((Service.update_context env k w d s).1 ≡ s)
        ⊎ ((saga : SagaInstance) × (saga_at k s ≡ some saga)
            × ((Service.update_context env k w d s).1
                ≡ with_saga (set_delivery d (set_warehouse w saga)) s))
  unfolding Service.update_context
  update_context-cases k w d s = elim (Option-cases (saga_at k s)) [
    | inl missing ↦ inl (rw missing)
    | inr (saga, found) ↦ elim (Bool-cases (given w || given d)) [
      | inl e ↦ inr (saga, found, rw found (rw e (rw (save_ok env ok))))
      | inr e ↦ inl (rw found (rw e))
    ]
  ]

set-keeps :
    (w d : Option ℕ) (saga : SagaInstance)
    → ((set_delivery d (set_warehouse w saga)).saga_id ≡ saga.saga_id)
      × ((set_delivery d (set_warehouse w saga)).status ≡ saga.status)
set-keeps none none saga = (refl, refl)
set-keeps none (some d) saga = (refl, refl)
set-keeps (some w) none saga = (refl, refl)
set-keeps (some w) (some d) saga = (refl, refl)

module _ (env : Setup) (ok : Accepts env) (delivers : Delivers env) (status : SagaStatus)
    (settled : status ≢ started) (k : ℕ) where
  complete-HasStatus :
      (j : ℕ) (s : Coordinator)
      → HasStatus status k s
      → HasStatus status k (perform env (complete j) s)
  complete-HasStatus j s h = elim (complete_saga-cases env ok j s) [
    | inl same ↦ rw same h
    | inr (saga, found, live, e) ↦ rw e (
        HasStatus-with_saga status k (mark_completed (s.clock s.ticks) saga)
          (record s { ticks = suc s.ticks }) h
          (λ here. absurd (
            settled (
              sym h.2
              ∙ (found-status k s h.0 saga h.1
                    (ap (λ i. saga_at i s) (sym here ∙ key-find saga_key j s.sagas found) ∙ found)
                  ∙ live)))))
  ]

  update-HasStatus :
      (j : ℕ) (w d : Option ℕ) (s : Coordinator)
      → HasStatus status k s
      → HasStatus status k (perform env (update j w d) s)
  update-HasStatus j w d s h = elim (update_context-cases env ok j w d s) [
    | inl same ↦ rw same h
    | inr (saga, found, e) ↦ rw e (
        HasStatus-with_saga status k (set_delivery d (set_warehouse w saga)) s h (λ here.
          let id : saga.saga_id ≡ k = sym (set-keeps w d saga).0 ∙ here in
          (set-keeps w d saga).1
          ∙ (sym (
                found-status k s h.0 saga h.1
                  (ap (λ i. saga_at i s) (sym id ∙ key-find saga_key j s.sagas found) ∙ found))
              ∙ h.2)))
  ]

  handle-HasStatus :
      (event : Event) (s : Coordinator)
      → HasStatus status k s
      → HasStatus status k (handle_failure_event env event s).1
  handle-HasStatus event s h = elim (Option-cases event.correlation_id) [
    | inl e ↦ rw (handle_failure_event-uncorrelated env event s e) h
    | inr (j, e) ↦ elim (Option-cases (saga_at j s)) [
      | inl missing ↦ rw (handle_failure_event-missing env event s j e missing) h
      | inr (saga, found) ↦ elim (is_settled-cases saga.status) [
        | inl done ↦ rw (handle_failure_event-settled env event s j saga e found done) h
        | inr live ↦
            let key = key-find saga_key j s.sagas found in
            let found' : saga_at saga.saga_id s ≡ some saga = ap (λ i. saga_at i s) key ∙ found in
            let correlated : event.correlation_id ≡ some saga.saga_id =
              e ∙ ap (λ i. some i) (sym key) in
            let others =
              (handle_failure_event-compensates env ok delivers event s saga correlated found'
                live).2 in
            (
              h.0,
              others k (λ here. settled (
                    sym h.2
                    ∙ (found-status k s h.0 saga h.1 (ap (λ i. saga_at i s) here ∙ found') ∙ live)))
                  ∙ h.1,
              h.2,
            )
      ]
    ]
  ]

  -- Where the table takes every status and the queue does not raise: a saga that is completed,
  -- failed or compensating keeps this status under any sequence of failure events, completions and
  -- updates of the context, of this saga and of others.
  pub perform_all-HasStatus :
      (ops : List Operation) (s : Coordinator)
      → HasStatus status k s
      → HasStatus status k (perform_all env ops s)
  perform_all-HasStatus [] s h = h
  perform_all-HasStatus (handle event ∷ ops) s h =
      perform_all-HasStatus ops _ (handle-HasStatus event s h)
  perform_all-HasStatus (complete j ∷ ops) s h =
      perform_all-HasStatus ops _ (complete-HasStatus j s h)
  perform_all-HasStatus (update j w d ∷ ops) s h =
      perform_all-HasStatus ops _ (update-HasStatus j w d s h)
