-- ===== src/Blockchain/Tasks.antt =====
-- services/blockchain_service/src/app/workers/confirmation_monitor.py: the tasks that one pass of
-- ConfirmationMonitor hands to `asyncio.gather`, each of them an `update_confirmation` of
-- services/blockchain_service/src/app/services/blockhain.py.
--
-- A task gives way to the others at its calls of the gateway, of the database and of the queue: a
-- turn takes it through one such call, and on to the next one.
use supply_chain_tracker.Prelude.{ℕ, suc, Option, none, some, List, map, str_eq, if◌then◌else◌}
use supply_chain_tracker.Outcome.{Outcome, returns, raises}
use supply_chain_tracker.Exec.Tasks.{interleave}
use supply_chain_tracker.Blockchain.Entity.{BlockchainRecord, confirm, fail}
use supply_chain_tracker.Blockchain.Repository.{Ledger, save, pending_rows}
use supply_chain_tracker.Blockchain.Service.{Setup, Receipt, is_enough, confirm_arguments, announce}

-- The call that a task waits for. A task that saves a confirmed record announces it afterwards.
pub data Phase : Type 0 where
  asking : BlockchainRecord → Phase
  saving : BlockchainRecord → Option ℕ → Phase
  announcing : BlockchainRecord → ℕ → Phase
  finished : Phase

module _ (env : Setup) where
  -- `_confirm_transaction` up to its `save`; what an exception leaves is caught
  abbrev pub start_confirm : BlockchainRecord → Receipt → Phase
  start_confirm entry receipt = elim (confirm_arguments env receipt) [
    | raises e ↦ finished
    | returns (block, gas, t) ↦ saving (confirm block gas t entry) (some t)
  ]

  -- `update_confirmation` once the receipt is there, up to its next call
  unfoldable pub after_receipt : BlockchainRecord → Outcome (Option Receipt) → Phase
  after_receipt entry (raises e) = finished
  after_receipt entry (returns none) = finished
  after_receipt entry (returns (some receipt)) = elim receipt.status [
    | none ↦ finished
    | some status ↦
        if str_eq status "failed"
        then saving (fail "Transaction reverted on chain" entry) none
        else if str_eq status "success"
        then if is_enough env.required_confirmations receipt.confirmations
          then start_confirm entry receipt
          else finished
        else finished
  ]

  -- once the record is saved; an exception of `save` is caught
  abbrev pub after_save : {A : Type 0} → BlockchainRecord → Option ℕ → Outcome A → Phase
  after_save entry next (raises e) = finished
  after_save entry none (returns a) = finished
  after_save entry (some t) (returns a) = announcing entry t

  unfoldable pub turn : Phase → Ledger → Phase × Ledger
  turn (asking entry) s = (
    after_receipt entry (env.gateway.get_receipt s.asked entry.tx_hash),
    record s { asked = suc s.asked },
  )
  turn (saving entry next) s =
      let (r, s') = save env.to_column entry s in (after_save entry next r, s')
  turn (announcing entry t) s = (finished, (announce env entry t s).1)
  turn finished s = (finished, s)

  -- One pass: the records are read, and their tasks run in some order of turns.
  unfoldable pub gather_pending : List ℕ → ℕ → Ledger → List Phase × Ledger
  gather_pending order batch_size s =
      interleave turn order (map asking (pending_rows batch_size s.records)) s
