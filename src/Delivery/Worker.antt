-- ===== src/Delivery/Worker.antt =====
-- services/delivery_service/src/app/workers/command_worker.py: DeliveryCommandWorker
-- Logging is left out.
use supply_chain_tracker.Prelude.{ℕ, Option, none, some, List, str_eq, if◌then◌else◌}
use supply_chain_tracker.Outcome.{returns, raises, delivery_not_found}
use supply_chain_tracker.Exec.{Exec, pure, swallow, for_each}
use supply_chain_tracker.Messaging.Value.{text, get, truthy}
use supply_chain_tracker.Messaging.Codec.{Codec, str}
use supply_chain_tracker.Messaging.Base.{Command}
use supply_chain_tracker.Delivery.Repository.{Fleet, Setup}
use supply_chain_tracker.Delivery.Service

-- `payload.get("delivery_id") or str(aggregate_id)`, as `uuid.UUID(str(raw))`; none where that is
-- no UUID
abbrev pub delivery_of : Codec → Command → Option ℕ
delivery_of c command =
    let fallback = text (c.show_uuid command.aggregate_id) in
    c.parse_uuid (
      str c (elim (get "delivery_id" command.payload) [
        | none ↦ fallback
        | some raw ↦ if truthy raw then raw else fallback
      ]))

-- `except DeliveryNotFoundError`: logged; any other exception leaves the handler
abbrev pub catch_not_found : Exec Fleet (Unit {0}) → Exec Fleet (Unit {0})
catch_not_found m s =
    let (r, s') = m s in
    elim r [
      | returns a ↦ (returns a, s')
      | raises e ↦ elim e [ delivery_not_found ↦ (returns tt, s') | other ↦ (raises other, s') ]
    ]

module _ (env : Setup) (c : Codec) where
  unfoldable pub handle_unassign_courier : Command → Exec Fleet (Unit {0})
  handle_unassign_courier command = elim (delivery_of c command) [
    | none ↦ pure tt
    | some delivery_id ↦ catch_not_found (Service.delete env delivery_id)
  ]

  unfoldable pub handle_command : Command → Exec Fleet (Unit {0})
  handle_command command =
      if str_eq command.command_type "courier.unassign"
      then handle_unassign_courier command
      else pure tt

  -- the loop of `run` over the commands that the queue yields
  unfoldable pub run : List Command → Exec Fleet (Unit {0})
  run commands = for_each commands (λ command. swallow tt (handle_command command))
