-- ===== src/Saga/Entity.antt =====
-- services/saga_coordinator/src/domain/entities/saga_instance.py
use supply_chain_tracker.Prelude.{ℕ, String, Bool, Option, some, str_eq}

pub data SagaStatus : Type 0 where
  started completed failed compensating : SagaStatus

-- `status.value`
abbrev pub value : SagaStatus → String
value started = "started"
value completed = "completed"
value failed = "failed"
value compensating = "compensating"

-- `==` on members
abbrev pub is_started : SagaStatus → Bool
is_started s = str_eq (value s) "started"

pub record SagaInstance : Type 0 where
  pub saga_id : ℕ
  pub saga_type : String
  pub shipment_id : ℕ
  pub warehouse_id : Option ℕ
  pub delivery_id : Option ℕ
  pub status : SagaStatus
  pub started_at : ℕ
  pub updated_at : ℕ
  pub failed_step : Option String
  pub error_message : Option String

-- The methods read the clock once; `now` is that reading.
abbrev pub mark_completed : ℕ → SagaInstance → SagaInstance
mark_completed now saga = record saga { status = completed; updated_at = now }

abbrev pub mark_failed : ℕ → String → String → SagaInstance → SagaInstance
mark_failed now step error saga = record saga {
  status = failed;
  failed_step = some step;
  error_message = some error;
  updated_at = now;
}

abbrev pub mark_compensating : ℕ → String → SagaInstance → SagaInstance
mark_compensating now step saga = record saga {
  status = compensating;
  failed_step = some step;
  updated_at = now;
}
