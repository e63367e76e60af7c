-- ===== src/Delivery/Repository.antt =====
-- The delivery service's database, and services/delivery_service/src/infra/db: the repositories of
-- couriers and of deliveries.
use supply_chain_tracker.Prelude.{
  ℕ, suc, String, Bool, true, false, Option, none, some, List, [], ◌∷◌, ◌==◌, str_eq, if◌then◌else◌,
  filter, leb, not, ◌&&◌,
}
use supply_chain_tracker.Outcome.{
  Error, Outcome, returns, raises, foreign_key_violation, check_violation,
}
use supply_chain_tracker.Exec.{Exec, pure, lift, ◌>>=◌, ◌>>◌}
use supply_chain_tracker.Table.{
  Table, find, upsert, delete_where, stored, order_by, order_by_desc, page,
}
use supply_chain_tracker.Delivery.Entity.{
  DeliveryStatus, value, FullName, ContactInfo, full_name, contact_info, Courier, Delivery,
}

pub record CourierRow : Type 0 where
  pub courier_id : ℕ
  pub name : String
  pub contact_info : String

pub record DeliveryRow : Type 0 where
  pub delivery_id : ℕ
  pub shipment_id : ℕ
  pub courier_id : ℕ
  pub status : DeliveryStatus
  pub estimated_arrival : Option ℕ
  pub actual_arrival : Option ℕ
  pub created_at : ℕ
  pub updated_at : ℕ

-- `clock` and `uuids` give the readings of the clock and the draws of `uuid4` to come.
pub record Fleet : Type 0 where
  pub couriers : Table CourierRow
  pub deliveries : Table DeliveryRow
  pub clock : ℕ → ℕ
  pub ticks : ℕ
  pub uuids : ℕ → ℕ
  pub drawn : ℕ

-- What the service is set up with: `len(s.strip())`; the CHECK on the status of `deliveries`, as
-- the exception that a row with a status raises, if any; what the database driver makes of a value
-- object that is passed where the column is a text; and the rank of a name in the collation.
pub record Setup : Type 0 where
  pub stripped_len : String → ℕ
  pub violation : String → Option Error
  pub encode_name : FullName → Outcome String
  pub encode_contact : ContactInfo → Outcome String
  pub rank : String → ℕ

-- `datetime.utcnow()`
abbrev pub now : Exec Fleet ℕ
now s = (returns (s.clock s.ticks), record s { ticks = suc s.ticks })

abbrev pub uuid4 : Exec Fleet ℕ
uuid4 s = (returns (s.uuids s.drawn), record s { drawn = suc s.drawn })

abbrev pub courier_key : CourierRow → ℕ
courier_key row = row.courier_id

abbrev pub delivery_key : DeliveryRow → ℕ
delivery_key row = row.delivery_id

abbrev pub merge_courier : CourierRow → CourierRow → CourierRow
merge_courier old new = record old { name = new.name; contact_info = new.contact_info }

-- DO UPDATE SET leaves delivery_id and created_at
abbrev pub merge_delivery : DeliveryRow → DeliveryRow → DeliveryRow
merge_delivery old new = record old {
  shipment_id = new.shipment_id;
  courier_id = new.courier_id;
  status = new.status;
  estimated_arrival = new.estimated_arrival;
  actual_arrival = new.actual_arrival;
  updated_at = new.updated_at;
}

abbrev pub row_of_delivery : Delivery → DeliveryRow
row_of_delivery d = record {
  delivery_id = d.delivery_id;
  shipment_id = d.shipment_id;
  courier_id = d.courier.courier_id;
  status = d.status;
  estimated_arrival = d.estimated_arrival;
  actual_arrival = d.actual_arrival;
  created_at = d.created_at;
  updated_at = d.updated_at;
}

-- `courier_id` REFERENCES couriers (migrations/002_create_deliveries.py)
abbrev pub references : ℕ → Fleet → Bool
references courier_id s = elim (find courier_key courier_id s.couriers) [
  | none ↦ false
  | some c ↦ true
]

-- ON DELETE RESTRICT: some delivery names the courier
abbrev pub is_named : ℕ → Table DeliveryRow → Bool
is_named courier_id [] = false
is_named courier_id (row ∷ rows) =
    let rest = is_named courier_id rows in if row.courier_id == courier_id then true else rest

-- ck_arrival_dates (migrations/002_create_deliveries.py)
abbrev pub dates_fit : DeliveryRow → Bool
dates_fit row = elim row.actual_arrival [ none ↦ true | some t ↦ leb row.created_at t ]

-- the row that INSERT proposes, and the row that it leaves
abbrev pub both_fit : DeliveryRow → Table DeliveryRow → Bool
both_fit row rows = dates_fit row && dates_fit (stored delivery_key merge_delivery row rows)

module _ (env : Setup) where
  unfoldable pub courier_of_row : CourierRow → Outcome Courier
  courier_of_row row = elim (full_name env.stripped_len row.name) [
    | raises e ↦ raises e
    | returns name ↦ elim (contact_info env.stripped_len row.contact_info) [
      | raises e ↦ raises e
      | returns contact ↦
          returns (record { courier_id = row.courier_id; name = name; contact_info = contact })
    ]
  ]

  unfoldable pub save_courier : Courier → Exec Fleet Courier
  save_courier courier = do
    name ← lift (env.encode_name courier.name)
    contact ← lift (env.encode_contact courier.contact_info)
    let row : CourierRow = record {
      courier_id = courier.courier_id;
      name = name;
      contact_info = contact;
    }
    λ s. (
      courier_of_row (stored courier_key merge_courier row s.couriers),
      record s { couriers = upsert courier_key merge_courier row s.couriers },
    )

  unfoldable pub get_courier : ℕ → Exec Fleet (Option Courier)
  get_courier courier_id s = elim (find courier_key courier_id s.couriers) [
    | none ↦ (returns none, s)
    | some row ↦ (do courier ← lift (courier_of_row row); pure (some courier)) s
  ]

  unfoldable pub couriers_of_rows : List CourierRow → Exec Fleet (List Courier)
  couriers_of_rows [] = pure []
  couriers_of_rows (row ∷ rows) = do
    courier ← lift (courier_of_row row)
    couriers ← couriers_of_rows rows
    pure (courier ∷ couriers)

  unfoldable pub get_all_couriers : ℕ → ℕ → Exec Fleet (List Courier)
  get_all_couriers limit offset s =
      couriers_of_rows (page limit offset (order_by (λ row. env.rank row.name) s.couriers)) s

  -- `_row_to_entity` of the delivery repository, on a joined row: `Delivery.__init__` reads the
  -- clock twice, and both instants are then replaced by the row's
  unfoldable pub delivery_of_row : DeliveryRow → CourierRow → Exec Fleet Delivery
  delivery_of_row row courier_row = do
    courier ← lift (courier_of_row courier_row)
    now
    now
    pure (record {
      delivery_id = row.delivery_id;
      shipment_id = row.shipment_id;
      courier = courier;
      status = row.status;
      estimated_arrival = row.estimated_arrival;
      actual_arrival = row.actual_arrival;
      created_at = row.created_at;
      updated_at = row.updated_at;
    })

  unfoldable pub save_delivery : Delivery → Exec Fleet Delivery
  save_delivery delivery s = elim (env.violation (value delivery.status)) [
    | some e ↦ (raises e, s)
    | none ↦
        if not (both_fit (row_of_delivery delivery) s.deliveries)
        then (raises check_violation, s)
        else if references delivery.courier.courier_id s
        then (
          returns delivery,
          record s {
            deliveries = upsert delivery_key merge_delivery (row_of_delivery delivery) s.deliveries;
          },
        )
        else (raises foreign_key_violation, s)
  ]

  -- SELECT ... FROM deliveries d JOIN couriers c ... WHERE d.delivery_id = $1
  unfoldable pub get_delivery : ℕ → Exec Fleet (Option Delivery)
  get_delivery delivery_id s = elim (find delivery_key delivery_id s.deliveries) [
    | none ↦ (returns none, s)
    | some row ↦ elim (find courier_key row.courier_id s.couriers) [
      | none ↦ (returns none, s)
      | some courier_row ↦ (do delivery ← delivery_of_row row courier_row; pure (some delivery)) s
    ]
  ]

  -- the entities of selected rows, each joined with its courier
  unfoldable pub deliveries_of_rows : List DeliveryRow → Exec Fleet (List Delivery)
  deliveries_of_rows [] s = (returns [], s)
  deliveries_of_rows (row ∷ rows) s = elim (find courier_key row.courier_id s.couriers) [
    | none ↦ deliveries_of_rows rows s
    | some courier_row ↦
        (do
          delivery ← delivery_of_row row courier_row
          deliveries ← deliveries_of_rows rows
          pure (delivery ∷ deliveries))
          s
  ]

  unfoldable pub get_by_shipment : ℕ → Exec Fleet (List Delivery)
  get_by_shipment shipment_id s =
      deliveries_of_rows
        (order_by_desc (λ row. row.created_at)
          (filter (λ row. row.shipment_id == shipment_id) s.deliveries))
        s

  unfoldable pub get_by_courier : ℕ → Exec Fleet (List Delivery)
  get_by_courier courier_id s =
      deliveries_of_rows
        (order_by_desc (λ row. row.created_at)
          (filter (λ row. row.courier_id == courier_id) s.deliveries))
        s

  unfoldable pub get_by_status : DeliveryStatus → Exec Fleet (List Delivery)
  get_by_status status s =
      deliveries_of_rows
        (order_by (λ row. row.created_at)
          (filter (λ row. str_eq (value row.status) (value status)) s.deliveries))
        s

  -- the joined rows, those whose courier exists, in order and by page
  unfoldable pub get_all_deliveries : ℕ → ℕ → Exec Fleet (List Delivery)
  get_all_deliveries limit offset s =
      deliveries_of_rows
        (page limit offset (
          order_by_desc (λ row. row.created_at)
            (filter (λ row. references row.courier_id s) s.deliveries)))
        s

unfoldable pub delete_courier : ℕ → Exec Fleet (Unit {0})
delete_courier courier_id s =
    if is_named courier_id s.deliveries
    then (raises foreign_key_violation, s)
    else (returns tt, record s { couriers = delete_where courier_key courier_id s.couriers })

unfoldable pub delete_delivery : ℕ → Exec Fleet (Unit {0})
delete_delivery delivery_id s =
    (returns tt, record s { deliveries = delete_where delivery_key delivery_id s.deliveries })
