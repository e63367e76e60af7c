-- ===== src/Delivery/Laws.antt =====
-- What DeliveryService and the command worker leave of the deliveries.
use supply_chain_tracker.Prelude.{
  ℕ, suc, ◌≡◌, refl, sym, ap, Option, none, some, ◌==◌, if◌then◌else◌,
}
use supply_chain_tracker.Outcome.{Outcome, returns, raises, delivery_not_found}
use supply_chain_tracker.Table.{find, delete_where}
use supply_chain_tracker.Table.Laws.{find-delete_where}
use supply_chain_tracker.Messaging.Codec.{Codec}
use supply_chain_tracker.Messaging.Base.{Command}
use supply_chain_tracker.Delivery.Entity.{
  Courier, Delivery, FullName, ContactInfo, full_name, contact_info,
}
use supply_chain_tracker.Delivery.Repository.{
  CourierRow, DeliveryRow, Fleet, Setup, courier_key, delivery_key, courier_of_row, delivery_of_row,
  get_delivery, delete_delivery,
}
use supply_chain_tracker.Delivery.Service
use supply_chain_tracker.Delivery.Worker.{delivery_of, handle_unassign_courier, catch_not_found}

abbrev pub row_at : ℕ → Fleet → Option DeliveryRow
row_at k s = find delivery_key k s.deliveries

-- A delivery that the service can read: its row, its courier's row, and the courier made of it.
pub record Readable (env : Setup) (k : ℕ) (s : Fleet) : Type 0 where
  pub row : DeliveryRow
  pub courier_row : CourierRow
  pub courier : Courier
  pub has_row : row_at k s ≡ some row
  pub has_courier : find courier_key row.courier_id s.couriers ≡ some courier_row
  pub valid : courier_of_row env courier_row ≡ returns courier

-- the delivery that is read
abbrev pub delivery_at : {env : Setup} {k : ℕ} {s : Fleet} → Readable env k s → Delivery
delivery_at r = record {
  delivery_id = r.row.delivery_id;
  shipment_id = r.row.shipment_id;
  courier = r.courier;
  status = r.row.status;
  estimated_arrival = r.row.estimated_arrival;
  actual_arrival = r.row.actual_arrival;
  created_at = r.row.created_at;
  updated_at = r.row.updated_at;
}

pub get_delivery-Readable :
    (env : Setup) (k : ℕ) (s : Fleet) (r : Readable env k s)
    → get_delivery env k s
      ≡ (returns (some (delivery_at r)), record s { ticks = suc (suc s.ticks) })
unfolding get_delivery delivery_of_row
get_delivery-Readable env k s r = rw (r.has_row, get_delivery) (rw r.has_courier (rw r.valid refl))

abbrev built : ℕ → FullName → ContactInfo → Courier
built id n m = record { courier_id = id; name = n; contact_info = m }

made_of :
    (id : ℕ) (name : Outcome FullName) (contact : Outcome ContactInfo) (courier : Courier)
    → (elim name [
      | raises e ↦ raises e
      | returns n ↦ elim contact [ raises e ↦ raises e | returns m ↦ returns (built id n m) ]
    ])
      ≡ returns courier
    → courier.courier_id ≡ id
made_of id (raises e) contact courier h = absurd (cc h)
made_of id (returns n) (raises e) courier h = absurd (cc h)
made_of id (returns n) (returns m) courier h =
    let whole : returns (built id n m) ≡ returns courier = h in
    let same : built id n m ≡ courier = cc in ap (λ c. c.courier_id) (sym same)

-- The courier made of a row has the row's key.
pub courier_of_row-courier_id :
    (env : Setup) (row : CourierRow) (courier : Courier)
    → courier_of_row env row ≡ returns courier
    → courier.courier_id ≡ row.courier_id
unfolding courier_of_row
courier_of_row-courier_id env row courier made =
    made_of row.courier_id (full_name env.stripped_len row.name)
      (contact_info env.stripped_len row.contact_info) courier made

pub get_delivery-missing :
    (env : Setup) (k : ℕ) (s : Fleet) → row_at k s ≡ none → get_delivery env k s ≡ (returns none, s)
unfolding get_delivery
get_delivery-missing env k s missing = rw (missing, get_delivery) refl

delete-Readable :
    (env : Setup) (k : ℕ) (s : Fleet)
    → Readable env k s
    → Service.delete env k s ≡ (
      returns tt,
      record s { ticks = suc (suc s.ticks); deliveries = delete_where delivery_key k s.deliveries },
    )
unfolding Service.delete delete_delivery
delete-Readable env k s r = rw (get_delivery-Readable env k s r) refl

delete-missing :
    (env : Setup) (k : ℕ) (s : Fleet)
    → row_at k s ≡ none
    → Service.delete env k s ≡ (raises delivery_not_found, s)
unfolding Service.delete
delete-missing env k s missing = rw (get_delivery-missing env k s missing) refl

-- A courier.unassign command that names a delivery which the service can read: handling it
-- returns, the delivery is gone, and every other delivery and all couriers are as they were.
pub handle_unassign_courier-deletes :
    (env : Setup) (c : Codec) (command : Command) (k : ℕ) (s : Fleet)
    → delivery_of c command ≡ some k
    → Readable env k s
    → let (result, s') = handle_unassign_courier env c command s in
      (result ≡ returns tt)
      × ((j : ℕ) → row_at j s' ≡ (if k == j then none else row_at j s))
      × (s'.couriers ≡ s.couriers)
unfolding handle_unassign_courier
handle_unassign_courier-deletes env c command k s names r =
    rw (names, handle_unassign_courier)
      (rw (delete-Readable env k s r, catch_not_found)
        (rw (delete-Readable env k s r)
          (refl, λ j. find-delete_where delivery_key k j s.deliveries, refl)))

-- A courier.unassign command for a delivery that is not there, as after a redelivery of the
-- command: handling it returns and changes nothing.
pub handle_unassign_courier-missing :
    (env : Setup) (c : Codec) (command : Command) (k : ℕ) (s : Fleet)
    → delivery_of c command ≡ some k
    → row_at k s ≡ none
    → handle_unassign_courier env c command s ≡ (returns tt, s)
unfolding handle_unassign_courier
handle_unassign_courier-missing env c command k s names missing =
    rw (names, handle_unassign_courier)
      (rw (delete-missing env k s missing, catch_not_found)
        (rw (delete-missing env k s missing) refl))
