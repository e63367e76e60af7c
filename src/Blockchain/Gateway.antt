-- ===== src/Blockchain/Gateway.antt =====
-- services/blockchain_service/src/infra: the mock gateway, RedisNonceManager, and how
-- Web3BlockchainGateway sends a transaction and reads a receipt. The node and Redis are parameters:
-- what they answer to each call. Logging is left out.
use supply_chain_tracker.Prelude.{
  ℕ, suc, ℤ, pos, negsuc, ◌+◌, ◌-◌, ◌==◌, String, Bool, Option, none, some, List, [], ◌∷◌, ◌++◌,
  ltb, if◌then◌else◌,
}
use supply_chain_tracker.Outcome.{Error, Outcome, returns, raises, value_error}
use supply_chain_tracker.Exec.{Exec, pure, raise, ◌>>=◌, ◌>>◌}
use supply_chain_tracker.Messaging.Value.{Fields}
use supply_chain_tracker.Blockchain.Service.{Receipt, Gateway}

-- `MockBlockchainGateway`: `digest` is the text that it makes of a payload, and `iso` the reading
-- of the clock at call number n, as a text. Its receipt has no status and no gas.
abbrev pub mock_receipt : String → Receipt
mock_receipt timestamp = record {
  confirmations = some (pos 6);
  status = none;
  block_number = some 123456;
  gas_used = none;
  timestamp = some timestamp;
}

abbrev pub mock_gateway : (Fields → String) → (ℕ → String) → Gateway
mock_gateway digest iso = record {
  send_transaction = λ n payload. returns (digest payload);
  get_receipt = λ n tx_hash. returns (some (mock_receipt (iso n)));
}

-- What `send_raw_transaction` of web3 comes to: the transaction's hash, a ValueError with a message, or
-- an exception of another class, as the Web3RPCError that web3 7 raises where the node refuses.
pub data Reply : Type 0 where
  accepted : String → Reply
  refused : String → Reply
  broken : Error → Reply

-- One account: what reading `rawTransaction` of a signed transaction comes to, AttributeError on
-- eth-account 0.13; the number under its key in Redis, if any; the counts of transactions that the node
-- will tell, and how many were told; the node's replies to come, by nonce; and the nonces of the
-- transactions handed to the node, in order.
pub record Account : Type 0 where
  pub raw_transaction : Outcome (Unit {0})
  pub nonce : Option ℤ
  pub counts : ℕ → ℕ
  pub told : ℕ
  pub reply : ℕ → ℤ → Reply
  pub sent : List ℤ
  pub replies : ℕ

-- `n - 1`, and `n + 1`
abbrev pub predecessor : ℕ → ℤ
predecessor n = if n == 0 then negsuc 0 else pos (n - 1)

abbrev pub successor : ℤ → ℤ
successor (pos n) = pos (n + 1)
successor (negsuc n) = if n == 0 then pos 0 else negsuc (n - 1)

-- `sync_from_chain`
unfoldable pub sync_from_chain : Exec Account ℕ
sync_from_chain s =
    let count = s.counts s.told in
    (returns count, record s { nonce = some (predecessor count); told = suc s.told })

-- `get_next_nonce`: INCR of a missing key gives 1
unfoldable pub get_next_nonce : Exec Account ℤ
get_next_nonce s =
    let next : ℤ = elim s.nonce [ none ↦ pos 1 | some n ↦ successor n ] in
    (returns next, record s { nonce = some next })

abbrev pub send_raw_transaction : ℤ → Exec Account Reply
send_raw_transaction nonce s = (
  returns (s.reply s.replies nonce),
  record s { replies = suc s.replies; sent = s.sent ++ nonce ∷ [] },
)

-- `_execute_tx`: the reply is its result, or what it raises
unfoldable pub execute_tx : Exec Account Reply
execute_tx = do nonce ← get_next_nonce; λ s. (s.raw_transaction, s); send_raw_transaction nonce

abbrev pub finish : Reply → Exec Account String
finish (accepted tx_hash) = pure tx_hash
finish (refused message) = raise value_error
finish (broken e) = raise e

-- `send_transaction`, once the payload is encoded and the gas price is read. `is_nonce_error` is
-- the test of a message: "nonce" or "replacement" is in it, in lower case.
unfoldable pub recover : (String → Bool) → Reply → Exec Account String
recover is_nonce_error (accepted tx_hash) = pure tx_hash
recover is_nonce_error (broken e) = raise e
recover is_nonce_error (refused message) =
    if is_nonce_error message
    then (do sync_from_chain; again ← execute_tx; finish again)
    else raise value_error

unfoldable pub send_transaction : (String → Bool) → Exec Account String
send_transaction is_nonce_error = do reply ← execute_tx; recover is_nonce_error reply

-- the fields of the node's receipt that are read
pub record ChainReceipt : Type 0 where
  pub block_number : ℕ
  pub status : ℕ
  pub gas_used : ℕ

-- `latest_block - receipt['blockNumber']`
abbrev pub confirmations_at : ℕ → ℕ → ℤ
confirmations_at latest block =
    if ltb latest block then negsuc (block - suc latest) else pos (latest - block)

-- `get_receipt` of the web3 gateway: the node's receipt, the text of the block's time, and the
-- latest block, each an answer or an exception; any exception gives None.
unfoldable pub get_receipt :
    Outcome ChainReceipt → (ℕ → Outcome String) → Outcome ℕ → Option Receipt
get_receipt (raises e) block_time latest = none
get_receipt (returns receipt) block_time latest = elim (block_time receipt.block_number) [
  | raises e ↦ none
  | returns timestamp ↦ elim latest [
    | raises e ↦ none
    | returns latest_block ↦ some (record {
      block_number = some receipt.block_number;
      confirmations = some (confirmations_at latest_block receipt.block_number);
      timestamp = some timestamp;
      status = some (if receipt.status == 1 then "success" else "failed");
      gas_used = some receipt.gas_used;
    })
  ]
]
