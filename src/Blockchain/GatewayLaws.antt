-- ===== src/Blockchain/GatewayLaws.antt =====
-- What the nonces and the mock gateway come to.
use supply_chain_tracker.Prelude.{
  ℕ, suc, ℤ, pos, ◌+◌, ◌==◌, ◌≡◌, refl, ap, ◌∙◌, String, Bool, true, some, List, [], ◌∷◌, length,
  ◌++◌, arith, Bool-cases, inl, inr,
}
use supply_chain_tracker.Outcome.{returns}
use supply_chain_tracker.Exec.{for_each}
use supply_chain_tracker.Messaging.Value.{Fields}
use supply_chain_tracker.Blockchain.Entity.{BlockchainRecord}
use supply_chain_tracker.Blockchain.Repository.{Ledger, pending_rows, get_pending_records}
use supply_chain_tracker.Blockchain.Service.{Setup, apply_receipt, update_confirmation}
use supply_chain_tracker.Blockchain.Workers.{check_pending}
use supply_chain_tracker.Blockchain.Gateway.{
  Account, accepted, refused, predecessor, successor, mock_gateway, sync_from_chain, get_next_nonce,
  execute_tx, recover, send_transaction,
}

module _ (env : Setup) (digest : Fields → String) (iso : ℕ → String) where
  abbrev mocked : Setup
  mocked = record env { gateway = mock_gateway digest iso }

  checked :
      (rows : List BlockchainRecord) (s : Ledger)
      → for_each rows (λ row. update_confirmation mocked row) s
        ≡ (returns tt, record s { asked = s.asked + length rows })
  unfolding for_each update_confirmation apply_receipt
  checked [] s = ap (λ a. (returns tt, record s { asked = a })) (omega arith)
  checked (row ∷ rows) s =
      checked rows (record s { asked = suc s.asked })
      ∙ ap (λ a. (returns tt, record s { asked = a })) (omega arith)

  -- With the mock gateway a pass of the monitor asks for the receipt of each record of its batch
  -- and changes none of them, since the mock receipt has no status: no record is ever confirmed.
  pub check_pending-mock :
      (batch_size : ℕ) (s : Ledger)
      → check_pending (record env { gateway = mock_gateway digest iso }) batch_size s
        ≡ (returns tt, record s { asked = s.asked + length (pending_rows batch_size s.records) })
  unfolding check_pending get_pending_records
  check_pending-mock batch_size s = checked (pending_rows batch_size s.records) s

successor-predecessor : (n : ℕ) → successor (predecessor n) ≡ pos n
successor-predecessor n = elim (Bool-cases (n == 0)) [
  | inl e ↦ rw e (ap pos (ground arith))
  | inr e ↦ rw e (ap pos (ground arith))
]

-- With a library whose signed transactions have `rawTransaction`, and that raises ValueError where the
-- node refuses a transaction for its nonce: the gateway takes the number of transactions
-- that the node counts, and sends once more with that number as the nonce: where the node accepts
-- this, the hash is returned, after the two transactions, and the next nonce follows the accepted
-- one.
send_transaction-recovers :
    (is_nonce_error : String → Bool) (first : ℤ) (message tx_hash : String) (s : Account)
    → s.nonce ≡ some first
    → s.raw_transaction ≡ returns tt
    → s.reply s.replies (successor first) ≡ refused message
    → is_nonce_error message ≡ true
    → let count = s.counts s.told in
      s.reply (suc s.replies) (pos count) ≡ accepted tx_hash
      → let (result, s') = send_transaction is_nonce_error s in
        (result ≡ returns tx_hash)
        × (s'.sent ≡ (s.sent ++ successor first ∷ []) ++ pos count ∷ [])
        × ((get_next_nonce s').0 ≡ returns (pos (count + 1)))
unfolding send_transaction execute_tx recover sync_from_chain get_next_nonce
send_transaction-recovers is_nonce_error first message tx_hash s stored signed refusal nonce
      acceptance =
    rw (stored, send_transaction)
      (rw signed (
        rw refusal (
          rw nonce
            (rw (successor-predecessor (s.counts s.told)) (rw acceptance (refl, refl, refl))))))
