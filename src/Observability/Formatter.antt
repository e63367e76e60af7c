-- ===== src/Observability/Formatter.antt =====
-- libs/libs/observability/logger.py: the context variables and JsonFormatter
-- `formatted` is what `formatException` makes of the exception of a record, if it has one.
use supply_chain_tracker.Prelude.{
  String, Bool, true, false, ◌||◌, Option, none, some, List, [], ◌∷◌, str_eq, if◌then◌else◌,
}
use supply_chain_tracker.Outcome.{returns}
use supply_chain_tracker.Exec.{Exec}
use supply_chain_tracker.Messaging.Value.{Value, text}
use supply_chain_tracker.Cache.{Dict, lookup, assign}

-- `correlation_id_var`, `service_name_var` and `environment_var`, whose defaults are None, None and
-- "local"
pub record Context : Type 0 where
  pub correlation_id : Option String
  pub service_name : Option String
  pub environment : Option String

abbrev pub initial : Context
initial = record { correlation_id = none; service_name = none; environment = some "local" }

abbrev pub set_correlation_id : String → Exec Context (Unit {0})
set_correlation_id id c = (returns tt, record c { correlation_id = some id })

abbrev pub set_service_name : String → Exec Context (Unit {0})
set_service_name name c = (returns tt, record c { service_name = some name })

abbrev pub set_environment : String → Exec Context (Unit {0})
set_environment env c = (returns tt, record c { environment = some env })

-- `logging.LogRecord`: `attributes` is its `__dict__`, which holds what `extra` gave it.
pub record LogRecord : Type 0 where
  pub levelname : String
  pub message : String
  pub name : String
  pub attributes : List (String × Value)
  pub formatted : Option String

-- `if v: payload[key] = v`, where None and an empty text are false
abbrev pub put_text : String → Option String → Dict Value → Dict Value
put_text key none payload = payload
put_text key (some t) payload = if str_eq t "" then payload else assign key (text t) payload

-- The attributes that the formatter leaves out by name. On Python 3.12 and later a record has
-- `taskName` too, which is not among them.
abbrev pub standard : List String
standard =
    "name" ∷ "msg" ∷ "args" ∷ "levelname" ∷ "levelno" ∷ "pathname" ∷ "filename" ∷ "module"
    ∷ "exc_info" ∷ "exc_text" ∷ "stack_info" ∷ "lineno" ∷ "funcName" ∷ "created" ∷ "msecs"
    ∷ "relativeCreated" ∷ "thread" ∷ "threadName" ∷ "processName" ∷ "process" ∷ []

abbrev pub is_in : String → List String → Bool
is_in key [] = false
is_in key (k ∷ keys) = str_eq k key || is_in key keys

-- `key in payload`
unfoldable pub has : String → Dict Value → Bool
has key payload = elim (lookup key payload) [ none ↦ false | some v ↦ true ]

-- the payload up to the attributes; `t` is the time as a text
unfoldable pub own_fields : Context → String → LogRecord → Dict Value
own_fields c t r = put_text "environment" c.environment (
    put_text "service" c.service_name (
      put_text "correlation_id" c.correlation_id (
        ("timestamp", text t)
        ∷ ("level", text r.levelname)
        ∷ ("message", text r.message)
        ∷ ("logger", text r.name)
        ∷ [])))

abbrev pub put_exception : Option String → Dict Value → Dict Value
put_exception none payload = payload
put_exception (some t) payload = assign "exc_info" (text t) payload

module _ (starts_with_underscore : String → Bool) where
  unfoldable pub is_hidden : String → Bool
  is_hidden key = starts_with_underscore key || is_in key standard

  -- the loop over `record.__dict__.items()`
  unfoldable pub add_attributes : List (String × Value) → Dict Value → Dict Value
  add_attributes [] payload = payload
  add_attributes ((key, v) ∷ attributes) payload =
      add_attributes attributes
        (if is_hidden key || has key payload then payload else assign key v payload)

  -- `format`, but for `json.dumps`
  unfoldable pub format : Context → String → LogRecord → Dict Value
  unfolding add_attributes own_fields
  format c t r = put_exception r.formatted (add_attributes r.attributes (own_fields c t r))
