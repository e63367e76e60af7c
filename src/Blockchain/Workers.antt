-- ===== src/Blockchain/Workers.antt =====
-- services/blockchain_service/src/app/workers: BlockchainWorker and ConfirmationMonitor
-- Logging and the correlation of log lines are left out.
use supply_chain_tracker.Prelude.{
  ℕ, String, Bool, false, List, [], ◌∷◌, ◌||◌, str_eq, if◌then◌else◌,
}
use supply_chain_tracker.Outcome.{Outcome, raises, attribute_error}
use supply_chain_tracker.Exec.{Exec, pure, lift, swallow, for_each, ◌>>=◌, ◌>>◌}
use supply_chain_tracker.Messaging.Value.{Value, text, uuid}
use supply_chain_tracker.Messaging.Codec.{Codec, to_uuid}
use supply_chain_tracker.Messaging.Base.{Event}
use supply_chain_tracker.Blockchain.Repository.{Ledger, get_pending_records}
use supply_chain_tracker.Blockchain.Service.{Setup, register_event, update_confirmation}

-- `UUID(x)`: the constructor reads a text. It calls `replace` on what it is given, which a UUID does
-- not have.
abbrev pub to_uuid_of : Codec → Value → Outcome ℕ
to_uuid_of c (text s) = to_uuid c s
to_uuid_of c v = raises attribute_error

-- `event.event_type in self._target_events`
abbrev pub is_target : String → List String → Bool
is_target event_type [] = false
is_target event_type (target ∷ targets) = str_eq target event_type || is_target event_type targets

-- one event of the loop of `run`
unfoldable pub handle_event : Codec → Setup → List String → Event → Exec Ledger (Unit {0})
handle_event c env targets event =
    if is_target event.event_type targets
    then swallow tt (do
      shipment_id ← lift (to_uuid_of c (uuid event.aggregate_id))
      register_event env shipment_id event.payload
      pure tt)
    else pure tt

-- the loop of `run` over the events that the queue yields
unfoldable pub run : Codec → Setup → List String → List Event → Exec Ledger (Unit {0})
run c env targets events = for_each events (λ event. handle_event c env targets event)

-- One pass of the loop of ConfirmationMonitor, its tasks run one after the other, which is one of
-- the orders that `gather` may run them in; Tasks has them all.
unfoldable pub check_pending : Setup → ℕ → Exec Ledger (Unit {0})
check_pending env batch_size = do
  pending_records ← get_pending_records batch_size
  for_each pending_records (λ entry. update_confirmation env entry)
