-- ===== src/Blockchain/Service.antt =====
-- services/blockchain_service/src/app/services/blockhain.py: BlockchainService
-- Logging is left out.
use supply_chain_tracker.Prelude.{
  ℕ, suc, ℤ, pos, negsuc, String, Bool, false, Option, none, some, leb, str_eq, if◌then◌else◌,
}
use supply_chain_tracker.Outcome.{Outcome, returns, raises, key_error}
use supply_chain_tracker.Exec.{Exec, pure, lift, swallow, ◌>>=◌, ◌>>◌}
use supply_chain_tracker.Messaging.Value.{Fields}
use supply_chain_tracker.Messaging.Codec.{Codec, to_time}
use supply_chain_tracker.Messaging.Base.{Event}
use supply_chain_tracker.Messaging.Events.{blockchain_verified}
use supply_chain_tracker.Messaging.Publish.{send}
use supply_chain_tracker.Blockchain.Entity.{BlockchainRecord, pending, confirm, fail}
use supply_chain_tracker.Blockchain.Repository.{Ledger, now, uuid4, save}

-- The dictionary that `get_receipt` gives, each key present or not.
pub record Receipt : Type 0 where
  pub confirmations : Option ℤ
  pub status : Option String
  pub block_number : Option ℕ
  pub gas_used : Option ℕ
  pub timestamp : Option String

-- `BlockchainGatewayPort`: what call number n comes to. A receipt of none is None or a dictionary
-- without keys.
pub record Gateway : Type 0 where
  pub send_transaction : ℕ → Fields → Outcome String
  pub get_receipt : ℕ → String → Outcome (Option Receipt)

-- What the service is set up with.
pub record Setup : Type 0 where
  pub codec : Codec
  pub gateway : Gateway
  pub to_column : Fields → Outcome Fields
  pub publish : Event → String → Outcome (Unit {0})
  pub required_confirmations : ℕ

-- one call of the gateway
abbrev pub ask : {A : Type 0} → (ℕ → Outcome A) → Exec Ledger A
ask call s = (call s.asked, record s { asked = suc s.asked })

-- `confirmations >= required`, where a missing count is 0
abbrev pub is_enough : ℕ → Option ℤ → Bool
is_enough required none = leb required 0
is_enough required (some (pos n)) = leb required n
is_enough required (some (negsuc n)) = false

module _ (env : Setup) where
  unfoldable pub register_event : ℕ → Fields → Exec Ledger String
  register_event shipment_id payload = do
    tx_hash ← ask (λ n. env.gateway.send_transaction n payload)
    record_id ← uuid4
    created_at ← now
    save env.to_column (record {
      tx_hash = tx_hash;
      shipment_id = shipment_id;
      payload = payload;
      record_id = record_id;
      status = pending;
      created_at = created_at;
      confirmed_at = none;
      block_number = none;
      error_message = none;
      gas_used = none;
    })
    pure tx_hash

  -- the arguments of `record.confirm`, in order: each key, then `datetime.fromisoformat`
  unfoldable pub confirm_arguments : Receipt → Outcome (ℕ × ℕ × ℕ)
  confirm_arguments receipt = elim receipt.block_number [
    | none ↦ raises key_error
    | some block ↦ elim receipt.gas_used [
      | none ↦ raises key_error
      | some gas ↦ elim receipt.timestamp [
        | none ↦ raises key_error
        | some text ↦ elim (to_time env.codec text) [
          | raises e ↦ raises e
          | returns t ↦ returns (block, gas, t)
        ]
      ]
    ]
  ]

  -- the publication of BlockchainVerified, by position
  unfoldable pub announce : BlockchainRecord → ℕ → Exec Ledger (Unit {0})
  announce entry verified_at = send uuid4 now env.codec env.publish "blockchain_events" (
      blockchain_verified (record {
        record_id = entry.record_id;
        shipment_id = entry.shipment_id;
        transaction_hash = entry.tx_hash;
        verified_at = verified_at;
        confirmations = pos env.required_confirmations;
      }))

  -- `_confirm_transaction`
  unfoldable pub confirm_transaction : BlockchainRecord → Receipt → Exec Ledger (Unit {0})
  confirm_transaction entry receipt = do
    arguments ← lift (confirm_arguments receipt)
    let (block, gas, timestamp) = arguments
    let done = confirm block gas timestamp entry
    save env.to_column done
    announce done timestamp

  -- `_fail_transaction`
  unfoldable pub fail_transaction : BlockchainRecord → String → Exec Ledger (Unit {0})
  fail_transaction entry reason = do save env.to_column (fail reason entry); pure tt

  -- what a receipt leads to
  unfoldable pub apply_receipt : BlockchainRecord → Option Receipt → Exec Ledger (Unit {0})
  apply_receipt entry none = pure tt
  apply_receipt entry (some receipt) = elim receipt.status [
    | none ↦ pure tt
    | some status ↦
        if str_eq status "failed"
        then fail_transaction entry "Transaction reverted on chain"
        else if str_eq status "success"
        then if is_enough env.required_confirmations receipt.confirmations
          then confirm_transaction entry receipt
          else pure tt
        else pure tt
  ]

  unfoldable pub update_confirmation : BlockchainRecord → Exec Ledger (Unit {0})
  update_confirmation entry =
      swallow tt (do
        receipt ← ask (λ n. env.gateway.get_receipt n entry.tx_hash)
        apply_receipt entry receipt)
