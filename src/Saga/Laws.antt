-- ===== src/Saga/Laws.antt =====
-- What the repository and the service methods leave, for a saga that is found.
use supply_chain_tracker.Prelude.{
  ℕ, suc, String, ◌≡◌, refl, Option, none, some, ◌==◌, if◌then◌else◌, false,
}
use supply_chain_tracker.Outcome.{returns}
use supply_chain_tracker.Table.{find, upsert, stored}
use supply_chain_tracker.Table.Laws.{find-upsert}
use supply_chain_tracker.Saga.Entity.{
  SagaStatus, failed, compensating, value, SagaInstance, mark_failed, mark_compensating,
}
use supply_chain_tracker.Saga.Repository.{Coordinator, Setup, saga_key, merge, save}
use supply_chain_tracker.Saga.Service.{fail_saga, trigger_compensation, is_final}

-- The saga that `get` finds.
abbrev pub saga_at : ℕ → Coordinator → Option SagaInstance
saga_at k s = find saga_key k s.sagas

-- The table after an update of a saga.
abbrev pub with_saga : SagaInstance → Coordinator → Coordinator
with_saga saga s = record s { sagas = upsert saga_key merge saga s.sagas }

-- The table accepts every status.
abbrev pub Accepts : Setup → Type 0
Accepts env = (status : SagaStatus) → env.violation (value status) ≡ none

pub saga_at-with_saga :
    (k : ℕ) (saga : SagaInstance) (s : Coordinator)
    → saga_at k (with_saga saga s)
      ≡ (if saga.saga_id == k then some (stored saga_key merge saga s.sagas) else saga_at k s)
saga_at-with_saga k saga s = find-upsert saga_key merge (λ old new. refl) k saga s.sagas

module _ (env : Setup) (ok : Accepts env) where
  pub save_ok :
      (saga : SagaInstance) (s : Coordinator)
      → save env saga s ≡ (returns (stored saga_key merge saga s.sagas), with_saga saga s)
  unfolding save
  save_ok saga s = rw (ok saga.status, save)

  module _ (saga : SagaInstance) (s : Coordinator)
      (found : saga_at saga.saga_id s ≡ some saga) where
    pub trigger_compensation_ok :
        (step : String)
        → is_final saga.status ≡ false
        → let marked = mark_compensating (s.clock s.ticks) step saga in
          trigger_compensation env saga.saga_id step s
          ≡ (returns marked, with_saga marked (record s { ticks = suc s.ticks }))
    unfolding trigger_compensation
    trigger_compensation_ok step live = rw found (rw live (rw (ok compensating, save) (rw found)))

    pub fail_saga_ok :
        (step message : String)
        → let marked = mark_failed (s.clock s.ticks) step message saga in
          fail_saga env saga.saga_id step message s
          ≡ (returns marked, with_saga marked (record s { ticks = suc s.ticks }))
    unfolding fail_saga
    fail_saga_ok step message = rw found (rw (ok failed, save) (rw found))
