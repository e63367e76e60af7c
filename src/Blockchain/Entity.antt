-- ===== src/Blockchain/Entity.antt =====
-- services/blockchain_service/src/domain/entities/blockhain_record.py
use supply_chain_tracker.Prelude.{ℕ, String, Bool, Option, some, str_eq}
use supply_chain_tracker.Messaging.Value.{Fields}

pub data TransactionStatus : Type 0 where
  pending confirmed failed : TransactionStatus

-- `status.value`
abbrev pub value : TransactionStatus → String
value pending = "PENDING"
value confirmed = "CONFIRMED"
value failed = "FAILED"

-- `status = 'PENDING'`
abbrev pub is_pending : TransactionStatus → Bool
is_pending status = str_eq (value status) "PENDING"

pub record BlockchainRecord : Type 0 where
  pub tx_hash : String
  pub shipment_id : ℕ
  pub payload : Fields
  pub record_id : ℕ
  pub status : TransactionStatus
  pub created_at : ℕ
  pub confirmed_at : Option ℕ
  pub block_number : Option ℕ
  pub error_message : Option String
  pub gas_used : Option ℕ

abbrev pub confirm : ℕ → ℕ → ℕ → BlockchainRecord → BlockchainRecord
confirm block gas timestamp entry = record entry {
  status = confirmed;
  block_number = some block;
  gas_used = some gas;
  confirmed_at = some timestamp;
}

abbrev pub fail : String → BlockchainRecord → BlockchainRecord
fail error entry = record entry { status = failed; error_message = some error }
