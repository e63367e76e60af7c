-- ===== src/Shipment/Postgres.antt =====
-- What ShipmentService and the command worker come to over the Postgres repository.
use supply_chain_tracker.Prelude.{
  ℕ, ◌≡◌, refl, sym, ap, ◌∙◌, Option, none, some, ◌==◌, if◌then◌else◌, Option-cases, Bool-cases,
  ==_sound, inl, inr,
}
use supply_chain_tracker.Outcome.{Error, returns, raises, type_error, shipment_not_found}
use supply_chain_tracker.Table.{find, delete_where}
use supply_chain_tracker.Table.Laws.{find-delete_where}
use supply_chain_tracker.Messaging.Codec.{Codec}
use supply_chain_tracker.Messaging.Base.{Command}
use supply_chain_tracker.Exec.{Exec}
use supply_chain_tracker.Shipment.Entity.{ShipmentStatus, Shipment}
use supply_chain_tracker.Shipment.Repository.{
  ShipmentRow, ShipmentDb, Setup, shipment_key, postgres, delete,
}
use supply_chain_tracker.Shipment.Service
use supply_chain_tracker.Shipment.Worker.{shipment_of, handle_cancel_shipment, catch_not_found}

abbrev pub row_at : ℕ → ShipmentDb → Option ShipmentRow
row_at k s = find shipment_key k s.shipments

delete-found :
    (k : ℕ) (s : ShipmentDb) (row : ShipmentRow)
    → row_at k s ≡ some row
    → delete k s ≡ (returns tt, record s { shipments = delete_where shipment_key k s.shipments })
unfolding delete
delete-found k s row found = rw (found, delete) refl

delete-missing :
    (k : ℕ) (s : ShipmentDb) → row_at k s ≡ none → delete k s ≡ (raises shipment_not_found, s)
unfolding delete
delete-missing k s missing = rw (missing, delete) refl

-- Handling a shipment.cancel command that names a shipment always returns, whether the shipment
-- exists or not; afterwards no row has its key, and every other row is as it was.
pub handle_cancel_shipment-deletes :
    (env : Setup) (c : Codec) (command : Command) (k : ℕ) (s : ShipmentDb)
    → shipment_of c command ≡ some k
    → let (result, s') = handle_cancel_shipment (postgres env) c command s in
      (result ≡ returns tt) × ((j : ℕ) → row_at j s' ≡ (if k == j then none else row_at j s))
unfolding handle_cancel_shipment Service.delete
handle_cancel_shipment-deletes env c command k s names = elim (Option-cases (row_at k s)) [
  | inl missing ↦
      rw (names, handle_cancel_shipment)
        (rw (delete-missing k s missing, catch_not_found)
          (rw (delete-missing k s missing) (
            refl,
            λ j. elim (Bool-cases (k == j)) [
              | inl here ↦ rw here (sym (ap (λ i. row_at i s) (==_sound k j here)) ∙ missing)
              | inr other ↦ rw other refl
            ],
          )))
  | inr (row, found) ↦
      rw (names, handle_cancel_shipment)
        (rw (delete-found k s row found, catch_not_found)
          (rw (delete-found k s row found)
            (refl, λ j. find-delete_where shipment_key k j s.shipments)))
]

-- The operations of ShipmentService that change the status of a shipment.
pub data Operation : Type 0 where
  receive prepare depart complete : Operation
  arrive : ℕ → Operation
  set : ShipmentStatus → Operation

abbrev pub perform : Setup → Operation → ℕ → Exec ShipmentDb Shipment
perform env receive k = Service.mark_as_received (postgres env) k
perform env prepare k = Service.mark_as_ready_for_delivery (postgres env) k
perform env depart k = Service.mark_as_in_transit (postgres env) k
perform env complete k = Service.mark_as_completed (postgres env) k
perform env (arrive date) k = Service.mark_as_delivered (postgres env) k date
perform env (set status) k = Service.update_status (postgres env) k status

-- What every one of them raises.
abbrev pub refusal : Option ShipmentRow → Error
refusal none = shipment_not_found
refusal (some row) = type_error
