-- ===== src/Shipment/Worker.antt =====
-- services/shipment_service/src/app/workers/command_worker.py: ShipmentCommandWorker
-- Logging is left out.
use supply_chain_tracker.Prelude.{ℕ, Option, none, some, List, str_eq, if◌then◌else◌}
use supply_chain_tracker.Outcome.{returns, raises, shipment_not_found}
use supply_chain_tracker.Exec.{Exec, pure, swallow, for_each}
use supply_chain_tracker.Messaging.Value.{text, get, truthy}
use supply_chain_tracker.Messaging.Codec.{Codec, str}
use supply_chain_tracker.Messaging.Base.{Command}
use supply_chain_tracker.Shipment.Port.{Port}
use supply_chain_tracker.Shipment.Service

-- `payload.get("shipment_id") or str(aggregate_id)`, as `uuid.UUID(str(raw))`; none where that is
-- no UUID
abbrev pub shipment_of : Codec → Command → Option ℕ
shipment_of c command =
    let fallback = text (c.show_uuid command.aggregate_id) in
    c.parse_uuid (
      str c (elim (get "shipment_id" command.payload) [
        | none ↦ fallback
        | some raw ↦ if truthy raw then raw else fallback
      ]))

-- `except ShipmentNotFoundError`: logged; any other exception leaves the handler
abbrev pub catch_not_found : {S : Type 0} → Exec S (Unit {0}) → Exec S (Unit {0})
catch_not_found m s =
    let (r, s') = m s in
    elim r [
      | returns a ↦ (returns a, s')
      | raises e ↦ elim e [ shipment_not_found ↦ (returns tt, s') | other ↦ (raises other, s') ]
    ]

module _ {S : Type 0} (port : Port S) (c : Codec) where
  unfoldable pub handle_cancel_shipment : Command → Exec S (Unit {0})
  handle_cancel_shipment command = elim (shipment_of c command) [
    | none ↦ pure tt
    | some shipment_id ↦ catch_not_found (Service.delete port shipment_id)
  ]

  unfoldable pub handle_command : Command → Exec S (Unit {0})
  handle_command command =
      if str_eq command.command_type "shipment.cancel"
      then handle_cancel_shipment command
      else pure tt

  -- the loop of `run` over the commands that the queue yields
  unfoldable pub run : List Command → Exec S (Unit {0})
  run commands = for_each commands (λ command. swallow tt (handle_command command))
