-- ===== src/Tests/Services.antt =====
-- A service that starts, runs and stops, and its readiness probe, at concrete inputs.
use supply_chain_tracker.Prelude.{
  Option, str_eq, ℕ, ◌+◌, ◌==◌, if◌then◌else◌, ◌≡◌, refl, String, true, false, none, some, List, [],
  ◌∷◌, elem,
}
use supply_chain_tracker.Outcome.{returns, raises, type_error}
use supply_chain_tracker.Cache.{lookup}
use supply_chain_tracker.Exec.{Exec}
use supply_chain_tracker.Errors.{
  Framework, Handler, register_domain_exception_handlers, warehouse_handlers, delivery_handlers,
  shipment_handlers,
}
use supply_chain_tracker.Errors.Laws.{create_app-register_domain_exception_handlers}
use supply_chain_tracker.Exec.Tasks.{interleave}
use supply_chain_tracker.Messaging.Value.{text}
use supply_chain_tracker.Observability.Middleware.{
  Request as HttpRequest, Response, http_request_started, http_request_failed, served,
}
use supply_chain_tracker.Observability.MiddlewareLaws.{served_lem}
use supply_chain_tracker.Observability.Formatter.{LogRecord, initial, own_fields, format}
use supply_chain_tracker.Observability.FormatterLaws.{format_lem}
use supply_chain_tracker.Startup.Providers.{Setup, start, stop, ask, ask_queue, perform_all}
use supply_chain_tracker.Startup.PoolLaws.{IsHeld, perform_all-IsHeld}
use supply_chain_tracker.Startup.Lifespan.{failed, of_pool, of_queue, lifespan}
use supply_chain_tracker.Startup.LifespanLaws.{bare, stopped, lifespan_lem}
use supply_chain_tracker.Startup.Race.{looking, turn, get_pool-race}
use supply_chain_tracker.Health.Checks.{
  ComponentHealth, Checked, gives, degraded, succeeded, failed, check_postgres, check_kafka,
}
use supply_chain_tracker.Health.Router
use supply_chain_tracker.Health.Laws.{
  rank, worst, any_down, response_of, is_unavailable, ready-worst,
}

abbrev setup : Setup
setup = record { create_pool = λ n. returns tt; close_pool = λ p. returns tt; use_kafka = false }

perform_all-IsHeld_example :
    IsHeld (perform_all setup (ask ∷ start ∷ ask_queue ∷ stop ∷ ask ∷ []) (bare 0)).1
perform_all-IsHeld_example =
    perform_all-IsHeld setup (ask ∷ start ∷ ask_queue ∷ stop ∷ ask ∷ []) (bare 0) refl

lifespan_lem_example :
    lifespan setup (failed type_error) (of_pool ∷ of_queue ∷ []) (bare 0)
    ≡ stopped setup 0 (raises type_error)
lifespan_lem_example = lifespan_lem setup 0 (failed type_error) (of_pool ∷ of_queue ∷ []) refl refl

get_pool-race_example :
    let s' = (interleave (turn setup) (0 ∷ 1 ∷ 0 ∷ 1 ∷ []) (looking ∷ looking ∷ []) (bare 3)).1 in
    (s'.pool ≡ some 4)
    × (elem 3 (perform_all setup (stop ∷ ask ∷ stop ∷ []) s').1.open_pools ≡ true)
get_pool-race_example = get_pool-race setup (bare 3) (stop ∷ ask ∷ stop ∷ []) refl refl refl

abbrev slow : ComponentHealth ℕ
slow = record { status = degraded; details = none; latency_ms = some 900 }

abbrev results : List (String × Checked ℕ)
results =
    ("postgresql", check_postgres 4 succeeded)
    ∷ ("redis", gives slow)
    ∷ ("kafka", check_kafka 5 none succeeded (some "no broker"))
    ∷ []

ready-worst_example :
    let answer = Router.ready "warehouse_service" results in
    (rank (response_of answer).status ≡ worst results)
    × (is_unavailable answer ≡ any_down results)
    × (lookup "redis" (response_of answer).components ≡ some slow)
ready-worst_example = ready-worst "warehouse_service" results "redis"

-- The check of Kafka throws, and the service is not ready.
ready_kafka : is_unavailable (Router.ready "warehouse_service" results) ≡ true
unfolding Router.ready check_postgres check_kafka
ready_kafka = refl

-- a service that counts its requests, and refuses the third
abbrev route : HttpRequest → Exec ℕ Response
route q n = (
  if n == 2 then raises type_error else returns (record { status_code = 200; body = none }),
  n + 1,
)

abbrev asked_for : HttpRequest
asked_for = record { method = "GET"; path = "/couriers"; body = returns "" }

served_lem_example :
    served
      (λ b. returns b)
      "delivery_service"
      route
      asked_for
      (record { app = 2; counts = []; log = [] })
    ≡ (
      raises type_error,
      record {
        app = 3;
        counts =
            record {
              service = "delivery_service";
              method = "GET";
              path = "/couriers";
              status = 500;
            }
            ∷ [];
        log = http_request_started "GET" "/couriers" ∷ http_request_failed "GET" "/couriers" ∷ [];
      },
    )
served_lem_example =
    served_lem (λ b. returns b) "delivery_service" route asked_for
      (record { app = 2; counts = []; log = [] })

-- a line whose extra fields claim another level and tell of a topic
abbrev line : LogRecord
line = record {
  levelname = "ERROR";
  message = "lost";
  name = "worker";
  attributes = ("level", text "INFO") ∷ ("topic", text "a") ∷ ("topic", text "b") ∷ [];
  formatted = none;
}

format_lem_example : lookup "level" (format (λ key. false) initial "now" line) ≡ some (text "ERROR")
unfolding own_fields
format_lem_example = format_lem (λ key. false) initial "now" line "level" refl

-- an application as the dictionary of its handlers
abbrev registry : Framework
registry = record {
  App = String → Option Handler;
  exception_handler =
      λ exc_class handle app name. if str_eq exc_class name then some handle else app name;
  handler_of = λ name app. app name;
}

abbrev fresh : String → Option Handler
fresh name = none

create_app-register_domain_exception_handlers_example :
    (warehouse_handlers registry fresh "WarehouseAlreadyExistsError"
      ≡ register_domain_exception_handlers registry
          ("WarehouseNotFoundError" ∷ "InventoryRecordNotFoundError" ∷ [])
          (some ("WarehouseAlreadyExistsError" ∷ []))
          fresh
          "WarehouseAlreadyExistsError")
    × (delivery_handlers registry fresh "WarehouseAlreadyExistsError"
        ≡ register_domain_exception_handlers registry
            ("CourierNotFoundError" ∷ "DeliveryNotFoundError" ∷ [])
            (some ("CourierAlreadyExistsError" ∷ []))
            fresh
            "WarehouseAlreadyExistsError")
    × (shipment_handlers registry fresh "WarehouseAlreadyExistsError"
        ≡ register_domain_exception_handlers registry
            ("ShipmentNotFoundError" ∷ [])
            none
            fresh
            "WarehouseAlreadyExistsError")
create_app-register_domain_exception_handlers_example =
    create_app-register_domain_exception_handlers registry (λ exc_class other handle app. refl)
      "WarehouseAlreadyExistsError" fresh
