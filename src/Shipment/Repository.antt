-- ===== src/Shipment/Repository.antt =====
-- services/shipment_service/src/infra/db/shipment_repository.py: PostgresShipmentRepository
-- `_row_to_entity` calls `Shipment(...)` without `departure_date`, which has no default, so it
-- raises TypeError on every row.
use supply_chain_tracker.Prelude.{ℕ, suc, String, Option, none, some, List, [], ◌∷◌}
use supply_chain_tracker.Outcome.{Error, Outcome, returns, raises, type_error, shipment_not_found}
use supply_chain_tracker.Exec.{Exec, pure, lift, ◌>>=◌}
use supply_chain_tracker.Table.{Table, find, upsert, delete_where, stored, order_by_desc, page}
use supply_chain_tracker.Shipment.Entity.{ShipmentStatus, value, Location, Shipment}
use supply_chain_tracker.Shipment.Port.{Port}

pub record ShipmentRow : Type 0 where
  pub shipment_id : ℕ
  pub origin : String
  pub destination : String
  pub status : ShipmentStatus
  pub created_at : ℕ
  pub updated_at : ℕ

pub record ShipmentDb : Type 0 where
  pub shipments : Table ShipmentRow
  pub clock : ℕ → ℕ
  pub ticks : ℕ

-- What the database driver makes of a `Location` that is passed where the column is a text, which
-- asyncpg refuses unless a codec is set for it, and the CHECK constraint of the table, as the
-- exception that a row with a status raises, if any.
pub record Setup : Type 0 where
  pub encode_location : Location → Outcome String
  pub violation : String → Option Error

-- a reading of the process's clock, or NOW() of a statement
abbrev pub now : Exec ShipmentDb ℕ
now s = (returns (s.clock s.ticks), record s { ticks = suc s.ticks })

abbrev pub shipment_key : ShipmentRow → ℕ
shipment_key row = row.shipment_id

abbrev pub merge : ShipmentRow → ShipmentRow → ShipmentRow
merge old new = record old {
  origin = new.origin;
  destination = new.destination;
  status = new.status;
  updated_at = new.updated_at;
}

-- `_row_to_entity`
abbrev pub row_to_entity : ShipmentRow → Outcome Shipment
row_to_entity row = raises type_error

unfoldable pub save : Setup → Shipment → Exec ShipmentDb Shipment
save env shipment = do
  origin ← lift (env.encode_location shipment.origin)
  destination ← lift (env.encode_location shipment.destination)
  t ← now
  let row : ShipmentRow = record {
    shipment_id = shipment.shipment_id;
    origin = origin;
    destination = destination;
    status = shipment.status;
    created_at = t;
    updated_at = t;
  }
  λ s. elim (env.violation (value shipment.status)) [
    | some e ↦ (raises e, s)
    | none ↦ (
      row_to_entity (stored shipment_key merge row s.shipments),
      record s { shipments = upsert shipment_key merge row s.shipments },
    )
  ]

unfoldable pub get : ℕ → Exec ShipmentDb (Option Shipment)
get shipment_id s = elim (find shipment_key shipment_id s.shipments) [
  | none ↦ (returns none, s)
  | some row ↦ (do shipment ← lift (row_to_entity row); pure (some shipment)) s
]

-- the result of DELETE is "DELETE 0" where no row has the key
unfoldable pub delete : ℕ → Exec ShipmentDb (Unit {0})
delete shipment_id s = elim (find shipment_key shipment_id s.shipments) [
  | none ↦ (raises shipment_not_found, s)
  | some row ↦
      (returns tt, record s { shipments = delete_where shipment_key shipment_id s.shipments })
]

unfoldable pub entities_of_rows : List ShipmentRow → Outcome (List Shipment)
entities_of_rows [] = returns []
entities_of_rows (row ∷ rows) = elim (row_to_entity row) [
  | raises e ↦ raises e
  | returns shipment ↦ elim (entities_of_rows rows) [
    | raises e ↦ raises e
    | returns shipments ↦ returns (shipment ∷ shipments)
  ]
]

unfoldable pub get_all : ℕ → ℕ → Exec ShipmentDb (List Shipment)
get_all limit offset s =
    (entities_of_rows (page limit offset (order_by_desc (λ row. row.created_at) s.shipments)), s)

abbrev pub postgres : Setup → Port ShipmentDb
postgres env = record { save = save env; get = get; delete = delete; get_all = get_all; now = now }
