-- ===== src/Tests/Deliveries.antt =====
-- Two deliveries of one courier.
use supply_chain_tracker.Prelude.{ℕ, refl, none, some, [], ◌∷◌, ◌+◌}
use supply_chain_tracker.Outcome.{returns}
use supply_chain_tracker.Delivery.Entity.{assigned, in_transit, full_name, contact_info}
use supply_chain_tracker.Delivery.Repository.{CourierRow, DeliveryRow, Fleet, Setup, courier_of_row}
use supply_chain_tracker.Delivery.Laws.{Readable}
use supply_chain_tracker.Delivery.Status.{Conforms, leads_to, depart, perform, perform-next}

abbrev pub fleet_env : Setup
fleet_env = record {
  stripped_len = λ s. 7;
  violation = λ status. none;
  encode_name = λ name. returns name.value;
  encode_contact = λ contact. returns contact.value;
  rank = λ s. 0;
}

abbrev pub ann : CourierRow
ann = record { courier_id = 8; name = "Ann Lee"; contact_info = "ann@lee" }

abbrev pub parcel : ℕ → DeliveryRow
parcel k = record {
  delivery_id = k;
  shipment_id = 2;
  courier_id = 8;
  status = assigned;
  estimated_arrival = some 200;
  actual_arrival = none;
  created_at = 10 + k;
  updated_at = 20 + k;
}

abbrev pub fleet : Fleet
fleet = record {
  couriers = ann ∷ [];
  deliveries = parcel 9 ∷ parcel 4 ∷ [];
  clock = λ k. 100 + k;
  ticks = 0;
  uuids = λ k. 50 + k;
  drawn = 0;
}

pub parcel-Readable : Readable fleet_env 4 fleet
unfolding courier_of_row full_name contact_info
parcel-Readable = record {
  row = parcel 4;
  courier_row = ann;
  courier = record {
    courier_id = 8;
    name = record { value = "Ann Lee" };
    contact_info = record { value = "ann@lee" };
  };
  has_row = refl;
  has_courier = refl;
  valid = refl;
}

perform-next_example : Conforms (leads_to in_transit) 4 fleet (perform fleet_env depart 4 fleet)
unfolding parcel-Readable
perform-next_example = perform-next fleet_env (λ status. refl) depart 4 fleet parcel-Readable refl
