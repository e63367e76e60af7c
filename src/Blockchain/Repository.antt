-- ===== src/Blockchain/Repository.antt =====
-- The blockchain service's database, and services/blockchain_service/src/infra/db.
use supply_chain_tracker.Prelude.{
  ℕ, suc, String, Bool, false, not, ◌&&◌, ◌||◌, Option, none, some, List, [], ◌∷◌, ◌==◌, str_eq,
  if◌then◌else◌, filter, take,
}
use supply_chain_tracker.Outcome.{Outcome, returns, raises, unique_violation}
use supply_chain_tracker.Exec.{Exec, lift, ◌>>=◌}
use supply_chain_tracker.Table.{Table, upsert, stored, order_by}
use supply_chain_tracker.Messaging.Value.{Fields}
use supply_chain_tracker.Blockchain.Entity.{BlockchainRecord, is_pending}

-- `clock` and `uuids` give the readings of the clock and the draws of `uuid4` to come; `asked` is
-- the number of calls of the gateway so far.
pub record Ledger : Type 0 where
  pub records : Table BlockchainRecord
  pub clock : ℕ → ℕ
  pub ticks : ℕ
  pub uuids : ℕ → ℕ
  pub drawn : ℕ
  pub asked : ℕ

-- `datetime.now(timezone.utc)`
abbrev pub now : Exec Ledger ℕ
now s = (returns (s.clock s.ticks), record s { ticks = suc s.ticks })

abbrev pub uuid4 : Exec Ledger ℕ
uuid4 s = (returns (s.uuids s.drawn), record s { drawn = suc s.drawn })

abbrev pub record_key : BlockchainRecord → ℕ
record_key entry = entry.record_id

-- DO UPDATE SET leaves record_id, shipment_id, tx_hash, payload and created_at
abbrev pub merge : BlockchainRecord → BlockchainRecord → BlockchainRecord
merge old new = record old {
  status = new.status;
  confirmed_at = new.confirmed_at;
  block_number = new.block_number;
  error_message = new.error_message;
  gas_used = new.gas_used;
}

-- UNIQUE (tx_hash): another record has the hash
abbrev pub is_taken : ℕ → String → Table BlockchainRecord → Bool
is_taken record_id tx_hash [] = false
is_taken record_id tx_hash (row ∷ rows) =
    (not (row.record_id == record_id) && str_eq row.tx_hash tx_hash)
    || is_taken record_id tx_hash rows

-- the statement of `save`
unfoldable pub upsert_row : BlockchainRecord → Exec Ledger BlockchainRecord
upsert_row entry s =
    if is_taken entry.record_id entry.tx_hash s.records then (raises unique_violation, s) else (
      returns (stored record_key merge entry s.records),
      record s { records = upsert record_key merge entry s.records },
    )

-- `to_column` is what `json.dumps`, the JSONB column and `json.loads` make of a payload, or the
-- exception of `json.dumps`.
unfoldable pub save : (Fields → Outcome Fields) → BlockchainRecord → Exec Ledger BlockchainRecord
save to_column entry = do
  payload ← lift (to_column entry.payload)
  upsert_row (record entry { payload = payload })

abbrev pub first_with_hash : String → List BlockchainRecord → Option BlockchainRecord
first_with_hash tx_hash [] = none
first_with_hash tx_hash (row ∷ rows) =
    if str_eq row.tx_hash tx_hash then some row else first_with_hash tx_hash rows

unfoldable pub get_by_tx_hash : String → Exec Ledger (Option BlockchainRecord)
get_by_tx_hash tx_hash s = (returns (first_with_hash tx_hash s.records), s)

-- WHERE status = 'PENDING' ORDER BY created_at ASC LIMIT $1
abbrev pub pending_rows : ℕ → Table BlockchainRecord → List BlockchainRecord
pending_rows limit t =
    take limit (order_by (λ row. row.created_at) (filter (λ row. is_pending row.status) t))

unfoldable pub get_pending_records : ℕ → Exec Ledger (List BlockchainRecord)
get_pending_records limit s = (returns (pending_rows limit s.records), s)
