-- ===== src/Health/Checks.antt =====
-- libs/libs/health/dto.py and checks.py: HealthStatus, ComponentHealth, HealthResponse and the
-- checks. `L` stands for a latency, the rounded milliseconds between two readings of the clock, and
-- `number` for the JSON number that it is. Of asyncpg, aioredis and aiokafka a check only sees how
-- its calls end.
use supply_chain_tracker.Prelude.{String, Option, none, some, [], ◌∷◌}
use supply_chain_tracker.Messaging.Value.{Value, text, dict, Fields, end, field}
use supply_chain_tracker.Cache.{Dict}

pub data HealthStatus : Type 0 where
  healthy unhealthy degraded : HealthStatus

-- `status.value`
abbrev pub value : HealthStatus → String
value healthy = "healthy"
value unhealthy = "unhealthy"
value degraded = "degraded"

pub record ComponentHealth (L : Type 0) : Type 0 where
  pub status : HealthStatus
  pub details : Option (Dict String)
  pub latency_ms : Option L

pub record HealthResponse (L : Type 0) : Type 0 where
  pub service : String
  pub status : HealthStatus
  pub components : Dict (ComponentHealth L)

abbrev pub texts : Dict String → Fields
texts [] = end
texts ((k, v) ∷ d) = field k (text v) (texts d)

module _ {L : Type 0} (number : L → Value) where
  abbrev latency : Option L → Fields
  latency none = end
  latency (some l) = field "latency_ms" (number l) end

  -- `if self.details`: neither None nor empty
  abbrev details_of : Option (Dict String) → Fields → Fields
  details_of none rest = rest
  details_of (some []) rest = rest
  details_of (some (d ∷ ds)) rest = field "details" (dict (texts (d ∷ ds))) rest

  -- `ComponentHealth.to_dict`
  unfoldable pub component_dict : ComponentHealth L → Fields
  component_dict c =
      field "status" (text (value c.status)) (details_of c.details (latency c.latency_ms))

  abbrev components_dict : Dict (ComponentHealth L) → Fields
  components_dict [] = end
  components_dict ((name, c) ∷ d) = field name (dict (component_dict c)) (components_dict d)

  -- `HealthResponse.to_dict`
  unfoldable pub response_dict : HealthResponse L → Fields
  response_dict r = field "service" (text r.service) (
      field "status" (text (value r.status))
        (field "components" (dict (components_dict r.components)) end))

-- How the calls under `asyncio.timeout` end: a time-out, or another exception with its text.
pub data Attempt : Type 0 where
  succeeded timed_out : Attempt
  failed : String → Attempt

-- What `check` comes to: a value, or an exception with its text.
pub data Checked (L : Type 0) : Type 0 where
  gives : ComponentHealth L → Checked L
  throws : String → Checked L

module _ {L : Type 0} where
  abbrev is_healthy : L → ComponentHealth L
  is_healthy l = record { status = healthy; details = none; latency_ms = some l }

  abbrev is_unhealthy : String → ComponentHealth L
  is_unhealthy e = record {
    status = unhealthy;
    details = some (("error", e) ∷ []);
    latency_ms = none;
  }

  -- `PostgresHealthCheck.check`, by how `SELECT 1` ends and the latency
  unfoldable pub check_postgres : L → Attempt → Checked L
  check_postgres l succeeded = gives (is_healthy l)
  check_postgres l timed_out = gives (is_unhealthy "Connection timeout")
  check_postgres l (failed e) = gives (is_unhealthy e)

  -- `RedisHealthCheck.check`: a time-out is an exception with no text
  unfoldable pub check_redis : L → Attempt → Checked L
  check_redis l succeeded = gives (is_healthy l)
  check_redis l timed_out = gives (is_unhealthy "")
  check_redis l (failed e) = gives (is_unhealthy e)

  -- `finally: if producer: await producer.stop()`, by how `stop` ends
  abbrev pub stop : Option String → ComponentHealth L → Checked L
  stop none c = gives c
  stop (some e) c = throws e

  -- `KafkaHealthCheck.check`: the constructor of the producer may raise, and then there is none to
  -- stop; what `stop` raises leaves the check.
  unfoldable pub check_kafka : L → Option String → Attempt → Option String → Checked L
  check_kafka l (some e) calls stopped = gives (is_unhealthy e)
  check_kafka l none succeeded stopped = stop stopped (is_healthy l)
  check_kafka l none timed_out stopped = stop stopped (is_unhealthy "")
  check_kafka l none (failed e) stopped = stop stopped (is_unhealthy e)
