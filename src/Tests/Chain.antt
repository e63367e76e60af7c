-- ===== src/Tests/Chain.antt =====
-- A ledger with two pending records and a confirmed one, and an account whose nonce is behind.
use supply_chain_tracker.Prelude.{
  ℕ, pos, ◌≡◌, refl, none, some, List, [], ◌∷◌, ◌+◌, String, true, false,
}
use supply_chain_tracker.Outcome.{returns, raises, kafka_error}
use supply_chain_tracker.Table.{order_by, insert_row}
use supply_chain_tracker.Messaging.Value.{end}
use supply_chain_tracker.Messaging.Base.{Event}
use supply_chain_tracker.Blockchain.Entity.{BlockchainRecord, pending, confirmed, confirm}
use supply_chain_tracker.Blockchain.Repository.{Ledger}
use supply_chain_tracker.Blockchain.Service.{Setup, Receipt, confirm_arguments}
use supply_chain_tracker.Blockchain.Laws.{row_at}
use supply_chain_tracker.Blockchain.Tasks.{gather_pending}
use supply_chain_tracker.Blockchain.GatherLaws.{gather_pending-Keeps, gather_pending-confirms}
use supply_chain_tracker.Blockchain.Settled.{rows_of, run_passes, rows_of-run_passes}
use supply_chain_tracker.Blockchain.Main
use supply_chain_tracker.Blockchain.MainLaws.{closed, is_ok, main-closes}
use supply_chain_tracker.Tests.Fixtures.{codec}

abbrev entry : ℕ → String → BlockchainRecord
entry k tx_hash = record {
  tx_hash = tx_hash;
  shipment_id = 2;
  payload = end;
  record_id = k;
  status = pending;
  created_at = 10 + k;
  confirmed_at = none;
  block_number = none;
  error_message = none;
  gas_used = none;
}

abbrev done : BlockchainRecord
done = record (entry 6 "0xc") { status = confirmed }

abbrev ledger : Ledger
ledger = record {
  records = entry 4 "0xa" ∷ done ∷ entry 5 "0xb" ∷ [];
  clock = λ k. 100 + k;
  ticks = 0;
  uuids = λ k. 50 + k;
  drawn = 0;
  asked = 0;
}

abbrev receipt : Receipt
receipt = record {
  confirmations = some (pos 7);
  status = some "success";
  block_number = some 900;
  gas_used = some 21;
  timestamp = some (codec.show_time 3);
}

-- every transaction has this receipt, and the queue is down
abbrev setup : Setup
setup = record {
  codec = codec;
  gateway = record {
    send_transaction = λ n payload. returns "0xd";
    get_receipt = λ n tx_hash. returns (some receipt);
  };
  to_column = λ payload. returns payload;
  publish = λ event topic. raises kafka_error;
  required_confirmations = 6;
}

abbrev news : Event
news = record {
  event_type = "shipment.created";
  aggregate_id = 2;
  aggregate_type = "shipment";
  payload = end;
  event_id = 90;
  timestamp = 99;
  correlation_id = none;
}

gather_pending-Keeps_example :
    row_at 6 (gather_pending setup (1 ∷ 0 ∷ 0 ∷ 1 ∷ []) 50 ledger).1 ≡ some done
unfolding order_by insert_row
gather_pending-Keeps_example =
    gather_pending-Keeps setup 6 (1 ∷ 0 ∷ 0 ∷ 1 ∷ []) 50 ledger (refl, (refl, tt))

gather_pending-confirms_example :
    row_at 5 (gather_pending setup (1 ∷ 0 ∷ 1 ∷ []) 50 ledger).1
    ≡ some (confirm 900 21 3 (entry 5 "0xb"))
unfolding order_by insert_row confirm_arguments
gather_pending-confirms_example =
    gather_pending-confirms setup (entry 5 "0xb") receipt end 900 21 3 (λ n. refl) refl refl refl
      refl (entry 4 "0xa" ∷ []) [] (1 ∷ 0 ∷ 1 ∷ []) 50 ledger refl ((refl, refl), tt) refl refl

-- a blockchain service whose producer can not be started
abbrev without_broker : Main.Setup
without_broker = record {
  use_mock = true;
  create_pool = returns tt;
  make_account = returns tt;
  sync = returns tt;
  start_producer = raises kafka_error;
  work = returns tt;
  stop_producer = returns tt;
  close_redis = returns tt;
  close_pool = returns tt;
}

main-closes_example :
    let (result, s) = Main.main without_broker closed in
    (s.redis ≡ false) × (s.pool ≡ false) × (s.producer ≡ true) × (is_ok result ≡ false)
unfolding Main.prepare
main-closes_example = main-closes without_broker refl refl refl

abbrev passes : List (List ℕ × ℕ)
passes = (0 ∷ 0 ∷ 1 ∷ 0 ∷ 1 ∷ [], 50) ∷ (1 ∷ 1 ∷ [], 7) ∷ []

rows_of-run_passes_example : rows_of 6 (run_passes setup passes ledger) ≡ done ∷ []
unfolding order_by insert_row
rows_of-run_passes_example = rows_of-run_passes setup 6 passes ledger (refl, tt)
