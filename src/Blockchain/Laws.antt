-- ===== src/Blockchain/Laws.antt =====
-- What the blockchain service leaves of its records.
use supply_chain_tracker.Prelude.{
  ℕ, suc, String, ◌≡◌, refl, ◌∙◌, true, false, Option, none, some, List, [], ◌∷◌, ◌==◌, str_eq,
  Bool-cases, Option-cases, inl, inr, All, ==_refl,
}
use supply_chain_tracker.Outcome.{returns}
use supply_chain_tracker.Exec.{pure, ◌>>=◌}
use supply_chain_tracker.Exec.Laws.{
  Keeps, >>=-Keeps, lift-Keeps, swallow-Keeps, swallow_lem, for_each-Keeps,
}
use supply_chain_tracker.Table.{find, upsert, stored}
use supply_chain_tracker.Table.Laws.{find-upsert}
use supply_chain_tracker.Messaging.Value.{Fields}
use supply_chain_tracker.Messaging.Publish.{send}
use supply_chain_tracker.Blockchain.Entity.{BlockchainRecord, confirmed, fail, confirm}
use supply_chain_tracker.Blockchain.Repository.{
  Ledger, record_key, merge, is_taken, upsert_row, save, pending_rows, get_pending_records,
}
use supply_chain_tracker.Blockchain.Service.{
  Setup, Receipt, ask, is_enough, confirm_arguments, announce, confirm_transaction,
  fail_transaction, apply_receipt, update_confirmation,
}
use supply_chain_tracker.Blockchain.Workers.{check_pending}

abbrev pub row_at : ℕ → Ledger → Option BlockchainRecord
row_at k s = find record_key k s.records

module _ (env : Setup) (j : ℕ) where
  upsert_row-Keeps :
      (entry : BlockchainRecord)
      → (entry.record_id == j) ≡ false
      → Keeps (row_at j) (upsert_row entry)
  unfolding upsert_row
  upsert_row-Keeps entry other s =
      elim (Bool-cases (is_taken entry.record_id entry.tx_hash s.records)) [
        | inl e ↦ rw (e, upsert_row) refl
        | inr e ↦
            rw (e, upsert_row)
              (find-upsert record_key merge (λ old new. refl) j entry s.records ∙ rw other refl)
      ]

  pub save-Keeps :
      (entry : BlockchainRecord)
      → (entry.record_id == j) ≡ false
      → Keeps (row_at j) (save env.to_column entry)
  unfolding save
  save-Keeps entry other =
      lift-Keeps (row_at j) (env.to_column entry.payload)
        (λ p. upsert_row (record entry { payload = p }))
        λ p e. upsert_row-Keeps (record entry { payload = p }) other

  pub announce-Keeps : (entry : BlockchainRecord) (t : ℕ) → Keeps (row_at j) (announce env entry t)
  unfolding announce send
  announce-Keeps entry t s = refl

  confirm_transaction-Keeps :
      (entry : BlockchainRecord) (receipt : Receipt)
      → (entry.record_id == j) ≡ false
      → Keeps (row_at j) (confirm_transaction env entry receipt)
  unfolding confirm_transaction
  confirm_transaction-Keeps entry receipt other =
      lift-Keeps (row_at j) (confirm_arguments env receipt) _ λ a e.
        let (block, gas, timestamp) = a in
        let done = confirm block gas timestamp entry in
        >>=-Keeps (row_at j) (save env.to_column done) (λ r. announce env done timestamp)
          (save-Keeps done other) λ r. announce-Keeps done timestamp

  fail_transaction-Keeps :
      (entry : BlockchainRecord) (reason : String)
      → (entry.record_id == j) ≡ false
      → Keeps (row_at j) (fail_transaction env entry reason)
  unfolding fail_transaction
  fail_transaction-Keeps entry reason other =
      >>=-Keeps (row_at j) (save env.to_column (fail reason entry)) (λ r. pure tt)
        (save-Keeps (fail reason entry) other) λ r s. refl

  apply_receipt-Keeps :
      (entry : BlockchainRecord) (receipt : Option Receipt)
      → (entry.record_id == j) ≡ false
      → Keeps (row_at j) (apply_receipt env entry receipt)
  unfolding apply_receipt confirm_transaction confirm_arguments
  apply_receipt-Keeps entry none other = λ s. refl
  apply_receipt-Keeps entry (some receipt) other = elim (Option-cases receipt.status) [
    | inl e ↦ rw e (λ s. refl)
    | inr (status, e) ↦ rw e (elim (Bool-cases (str_eq status "failed")) [
      | inl f ↦ rw f (fail_transaction-Keeps entry _ other)
      | inr f ↦ rw f (elim (Bool-cases (str_eq status "success")) [
        | inl g ↦
            rw g (elim (Bool-cases (is_enough env.required_confirmations receipt.confirmations)) [
              | inl h ↦ rw h (confirm_transaction-Keeps entry receipt other)
              | inr h ↦ rw h (λ s. refl)
            ])
        | inr g ↦ rw g (λ s. refl)
      ])
    ])
  ]

  update_confirmation-Keeps :
      (entry : BlockchainRecord)
      → (entry.record_id == j) ≡ false
      → Keeps (row_at j) (update_confirmation env entry)
  unfolding update_confirmation
  update_confirmation-Keeps entry other = swallow-Keeps (row_at j) tt _ (
      >>=-Keeps (row_at j) (ask (λ n. env.gateway.get_receipt n entry.tx_hash))
        (apply_receipt env entry) (λ s. refl) λ r. apply_receipt-Keeps entry r other)

  update_confirmation-All :
      (rows : List BlockchainRecord)
      → All (λ row. (row.record_id == j) ≡ false) rows
      → All (λ row. Keeps (row_at j) (update_confirmation env row)) rows
  update_confirmation-All [] others = tt
  update_confirmation-All (row ∷ rows) (other, others) =
      (update_confirmation-Keeps row other, update_confirmation-All rows others)

  -- A pass of the confirmation monitor leaves every record as it was that is not in its batch,
  -- which holds the oldest pending records up to the batch size: whatever the gateway answers, and
  -- whether the events are published or not.
  pub check_pending-Keeps :
      (batch_size : ℕ) (s : Ledger)
      → All (λ row. (row.record_id == j) ≡ false) (pending_rows batch_size s.records)
      → row_at j (check_pending env batch_size s).1 ≡ row_at j s
  unfolding check_pending get_pending_records
  check_pending-Keeps batch_size s others =
      for_each-Keeps (row_at j) (pending_rows batch_size s.records)
        (λ row. update_confirmation env row)
        (update_confirmation-All (pending_rows batch_size s.records) others) s

-- Where the gateway's receipt of a stored record tells of success with enough confirmations, has
-- the block, the gas and the time, and the row is accepted: checking the record returns, and its
-- row is then confirmed with these three, and as it was in its identity, payload and creation. This
-- holds whether BlockchainVerified is published or not.
pub update_confirmation-confirms :
    (env : Setup) (entry row : BlockchainRecord) (receipt : Receipt) (p : Fields) (block gas t : ℕ)
    (s : Ledger)
    → row_at entry.record_id s ≡ some row
    → env.gateway.get_receipt s.asked entry.tx_hash ≡ returns (some receipt)
    → receipt.status ≡ some "success"
    → is_enough env.required_confirmations receipt.confirmations ≡ true
    → confirm_arguments env receipt ≡ returns (block, gas, t)
    → env.to_column entry.payload ≡ returns p
    → is_taken entry.record_id entry.tx_hash s.records ≡ false
    → let (result, s') = update_confirmation env entry s in
      (result ≡ returns tt)
      × (row_at entry.record_id s'
          ≡ some (record row {
            status = confirmed;
            confirmed_at = some t;
            block_number = some block;
            error_message = entry.error_message;
            gas_used = some gas;
          }))
unfolding update_confirmation save upsert_row apply_receipt confirm_transaction announce send
update_confirmation-confirms env entry row receipt p block gas t s held answer success enough keys
      column free =
    let k = entry.record_id in
    let new : BlockchainRecord = record (confirm block gas t entry) { payload = p } in
    let s₁ : Ledger = record s { asked = suc s.asked } in
    let s₂ : Ledger = record s₁ { records = upsert record_key merge new s.records } in
    let saved : save env.to_column (confirm block gas t entry) s₁
        ≡ (returns (stored record_key merge new s.records), s₂) =
      rw (column, save) (rw (free, upsert_row) refl) in
    let applied : apply_receipt env entry (some receipt) s₁
        ≡ announce env (confirm block gas t entry) t s₂ =
      rw (success, apply_receipt) (rw enough (rw (keys, confirm_transaction) (rw saved refl))) in
    let held' : find record_key k (upsert record_key merge new s.records) ≡ some (merge row new) =
      find-upsert record_key merge (λ old newer. refl) k new s.records
      ∙ rw (==_refl k) (rw (held, stored) refl) in
    rw
      (swallow_lem (ask (λ n. env.gateway.get_receipt n entry.tx_hash) >>= apply_receipt env entry)
        s)
      (refl, rw answer (rw applied held'))
