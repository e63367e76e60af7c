-- ===== src/Saga/Api.antt =====
-- services/saga_coordinator/src/api: the DTOs, SagaMapper and the handlers of the router.
use supply_chain_tracker.Prelude.{ℕ, String, Option, none, some, List, map}
use supply_chain_tracker.Outcome.{http_exception}
use supply_chain_tracker.Exec.{Exec, pure, or_raise, ◌>>=◌}
use supply_chain_tracker.Saga.Entity.{SagaStatus, started, SagaInstance}
use supply_chain_tracker.Saga.Repository.{Coordinator, Setup, now}
use supply_chain_tracker.Saga.Service

pub record SagaCreateDto : Type 0 where
  pub saga_id : ℕ
  pub saga_type : String
  pub shipment_id : ℕ
  pub warehouse_id : Option ℕ
  pub delivery_id : Option ℕ

pub record SagaDto : Type 0 where
  pub saga_id : ℕ
  pub saga_type : String
  pub shipment_id : ℕ
  pub status : SagaStatus
  pub started_at : ℕ
  pub updated_at : ℕ
  pub warehouse_id : Option ℕ
  pub delivery_id : Option ℕ
  pub failed_step : Option String
  pub error_message : Option String

pub record SagaUpdateDto : Type 0 where
  pub warehouse_id : Option ℕ
  pub delivery_id : Option ℕ
  pub status : Option SagaStatus
  pub failed_step : Option String
  pub error_message : Option String

-- `if new is not None: field = new`
abbrev pub replace {ℓ} : {A : Type ℓ} → Option A → A → A
replace none old = old
replace (some new) old = new

abbrev pub replace_some {ℓ} : {A : Type ℓ} → Option A → Option A → Option A
replace_some none old = old
replace_some (some new) old = some new

-- the defaults of `started_at` and `updated_at` read the clock, in this order
unfoldable pub create_dto_to_entity : SagaCreateDto → Exec Coordinator SagaInstance
create_dto_to_entity dto = do
  t ← now
  u ← now
  pure (record {
    saga_id = dto.saga_id;
    saga_type = dto.saga_type;
    shipment_id = dto.shipment_id;
    warehouse_id = dto.warehouse_id;
    delivery_id = dto.delivery_id;
    status = started;
    started_at = t;
    updated_at = u;
    failed_step = none;
    error_message = none;
  })

unfoldable pub update_entity_from_dto : SagaInstance → SagaUpdateDto → Exec Coordinator SagaInstance
update_entity_from_dto entity dto = do
  t ← now
  pure (record entity {
    warehouse_id = replace_some dto.warehouse_id entity.warehouse_id;
    delivery_id = replace_some dto.delivery_id entity.delivery_id;
    status = replace dto.status entity.status;
    failed_step = replace_some dto.failed_step entity.failed_step;
    error_message = replace_some dto.error_message entity.error_message;
    updated_at = t;
  })

unfoldable pub entity_to_dto : SagaInstance → SagaDto
entity_to_dto entity = record {
  saga_id = entity.saga_id;
  saga_type = entity.saga_type;
  shipment_id = entity.shipment_id;
  status = entity.status;
  started_at = entity.started_at;
  updated_at = entity.updated_at;
  warehouse_id = entity.warehouse_id;
  delivery_id = entity.delivery_id;
  failed_step = entity.failed_step;
  error_message = entity.error_message;
}

unfoldable pub create_saga : Setup → SagaCreateDto → Exec Coordinator SagaDto
create_saga env dto = do
  saga_instance ← create_dto_to_entity dto
  created ← Service.create env saga_instance
  pure (entity_to_dto created)

unfoldable pub get_saga : ℕ → Exec Coordinator SagaDto
get_saga saga_id = do
  found ← Service.get saga_id
  saga_instance ← or_raise found (http_exception 404)
  pure (entity_to_dto saga_instance)

unfoldable pub get_saga_by_shipment : ℕ → Exec Coordinator SagaDto
get_saga_by_shipment shipment_id = do
  found ← Service.get_by_shipment shipment_id
  saga_instance ← or_raise found (http_exception 404)
  pure (entity_to_dto saga_instance)

unfoldable pub list_active_sagas : Exec Coordinator (List SagaDto)
list_active_sagas = do
  saga_instances ← Service.list_active_sagas
  pure (map entity_to_dto saga_instances)

unfoldable pub update_saga_context : Setup → ℕ → SagaUpdateDto → Exec Coordinator SagaDto
update_saga_context env saga_id dto = do
  found ← Service.get saga_id
  saga_instance ← or_raise found (http_exception 404)
  updated_entity ← update_entity_from_dto saga_instance dto
  saved ←
      Service.update_context env saga_instance.saga_id updated_entity.warehouse_id
        updated_entity.delivery_id
  pure (entity_to_dto saved)
