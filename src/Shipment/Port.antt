-- ===== src/Shipment/Port.antt =====
-- services/shipment_service/src/domain/ports/shipment_repository.py: ShipmentRepositoryPort, and
-- what ShipmentService relies on. `S` is the state of the process and of its database; the clock
-- belongs to it.
use supply_chain_tracker.Prelude.{ℕ, Option, List}
use supply_chain_tracker.Exec.{Exec}
use supply_chain_tracker.Shipment.Entity.{Shipment}

pub record Port (S : Type 0) : Type 0 where
  pub save : Shipment → Exec S Shipment
  pub get : ℕ → Exec S (Option Shipment)
  pub delete : ℕ → Exec S (Unit {0})
  pub get_all : ℕ → ℕ → Exec S (List Shipment)
  pub now : Exec S ℕ
