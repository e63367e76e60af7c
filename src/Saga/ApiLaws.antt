-- ===== src/Saga/ApiLaws.antt =====
-- What the router's handlers promise, and what they do not do.
use supply_chain_tracker.Prelude.{ℕ, suc, ◌≡◌, none, some, Option-cases, inl, inr, ==_refl}
use supply_chain_tracker.Outcome.{returns}
use supply_chain_tracker.Table.{stored}
use supply_chain_tracker.Saga.Entity.{started, SagaInstance}
use supply_chain_tracker.Saga.Repository.{Coordinator, Setup, saga_key, merge}
use supply_chain_tracker.Saga.Service
use supply_chain_tracker.Saga.Laws.{saga_at, with_saga, Accepts, saga_at-with_saga, save_ok}
use supply_chain_tracker.Saga.Api.{
  SagaCreateDto, SagaUpdateDto, create_dto_to_entity, update_entity_from_dto, entity_to_dto,
  create_saga, get_saga, update_saga_context,
}

-- The entity that `create_saga` saves.
abbrev new_saga : SagaCreateDto → Coordinator → SagaInstance
new_saga dto s = record {
  saga_id = dto.saga_id;
  saga_type = dto.saga_type;
  shipment_id = dto.shipment_id;
  warehouse_id = dto.warehouse_id;
  delivery_id = dto.delivery_id;
  status = started;
  started_at = s.clock s.ticks;
  updated_at = s.clock (suc s.ticks);
  failed_step = none;
  error_message = none;
}

module _ (env : Setup) (ok : Accepts env) (dto : SagaCreateDto) (s : Coordinator) where
  abbrev read : Coordinator
  read = record s { ticks = suc (suc s.ticks) }

  create_saga_lem : create_saga env dto s ≡ (
    returns (entity_to_dto (stored saga_key merge (new_saga dto s) s.sagas)),
    with_saga (new_saga dto s) read,
  )
  unfolding create_saga create_dto_to_entity Service.create
  create_saga_lem = rw (save_ok env ok (new_saga dto s) read)

  -- Where the table takes every status: `GET /saga_instances/{id}` after `POST /saga_instances`
  -- returns what the POST returned, and changes nothing.
  pub get_saga-create_saga :
      let (result, s') = create_saga env dto s in get_saga dto.saga_id s' ≡ (result, s')
  unfolding get_saga Service.get
  get_saga-create_saga =
      rw create_saga_lem
        (rw (saga_at-with_saga dto.saga_id (new_saga dto s) read) (rw (==_refl dto.saga_id)))

  -- Where the table takes every status: a POST with the identifier of a saga that exists, whatever
  -- has become of it, starts that saga again. It keeps its type, its shipment and its start, takes
  -- the identifiers of the request, and loses its failed step and its error message.
  pub create_saga-restarts :
      (old : SagaInstance)
      → saga_at dto.saga_id s ≡ some old
      → saga_at dto.saga_id (create_saga env dto s).1
        ≡ some (record old {
          warehouse_id = dto.warehouse_id;
          delivery_id = dto.delivery_id;
          status = started;
          updated_at = s.clock (suc s.ticks);
          failed_step = none;
          error_message = none;
        })
  create_saga-restarts old found = rw create_saga_lem (
      rw (saga_at-with_saga dto.saga_id (new_saga dto s) read)
        (rw (==_refl dto.saga_id) (rw (found, stored))))

-- A PATCH does not act on the status, the failed step and the error message of its request: with
-- and without them it has the same result and leaves the same state.
pub update_saga_context-ignores_status :
    (env : Setup) (saga_id : ℕ) (dto : SagaUpdateDto) (s : Coordinator)
    → update_saga_context env saga_id dto s
      ≡ update_saga_context env saga_id
          (record dto { status = none; failed_step = none; error_message = none })
          s
unfolding update_saga_context update_entity_from_dto Service.get
update_saga_context-ignores_status env saga_id dto s = elim (Option-cases (saga_at saga_id s)) [
  | inl missing ↦ rw missing
  | inr (saga, found) ↦ rw found
]
