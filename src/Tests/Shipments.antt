-- ===== src/Tests/Shipments.antt =====
-- ShipmentService over Postgres.
use supply_chain_tracker.Prelude.{none, [], ◌∷◌, ◌+◌, String}
use supply_chain_tracker.Outcome.{raises, type_error}
use supply_chain_tracker.Shipment.Entity.{created, Location, Shipment}
use supply_chain_tracker.Shipment.Repository.{ShipmentDb, Setup}

abbrev pub place : String → Location
place city = record { country = "NL"; city = city; address = "1 Quay" }

abbrev pub crate : Shipment
crate = record {
  origin = place "Delft";
  destination = place "Breda";
  departure_date = 30;
  arrival_date = none;
  shipment_id = 2;
  status = created;
  created_at = 10;
  updated_at = 11;
}

-- a driver that takes no location where the column is a text, and a CHECK that takes every status
abbrev pub pg : Setup
pg = record { encode_location = λ place. raises type_error; violation = λ status. none }

abbrev pub db : ShipmentDb
db = record {
  shipments =
      record {
        shipment_id = 2;
        origin = "Delft";
        destination = "Breda";
        status = created;
        created_at = 10;
        updated_at = 11;
      }
      ∷ [];
  clock = λ k. 100 + k;
  ticks = 0;
}
