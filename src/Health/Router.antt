-- ===== src/Health/Router.antt =====
-- libs/libs/health/router.py: the two probes of `create_health_router`
use supply_chain_tracker.Prelude.{String, none, some, List, [], ◌∷◌}
use supply_chain_tracker.Cache.{Dict, assign}
use supply_chain_tracker.Health.Checks.{
  HealthStatus, healthy, unhealthy, degraded, ComponentHealth, HealthResponse, Checked, gives,
  throws,
}

-- The answer of a probe: 200 or 503, with the response.
pub data Reply (L : Type 0) : Type 0 where
  ok unavailable : HealthResponse L → Reply L

-- the overall status after one more component
abbrev pub add_status : HealthStatus → HealthStatus → HealthStatus
add_status unhealthy overall = unhealthy
add_status degraded unhealthy = unhealthy
add_status degraded healthy = degraded
add_status degraded degraded = degraded
add_status healthy overall = overall

module _ {L : Type 0} where
  unfoldable pub health : String → Reply L
  health service = ok (record { service = service; status = healthy; components = [] })

  -- the component that stands for a result of `gather`
  abbrev pub component_of : Checked L → ComponentHealth L
  component_of (throws e) = record {
    status = unhealthy;
    details = some (("error", e) ∷ []);
    latency_ms = none;
  }
  component_of (gives c) = c

  -- the loop over `zip(checks, results)`; a check comes with its name
  unfoldable pub collect :
      List (String × Checked L)
      → Dict (ComponentHealth L)
      → HealthStatus
      → Dict (ComponentHealth L) × HealthStatus
  collect [] components overall = (components, overall)
  collect ((name, result) ∷ results) components overall =
      let c = component_of result in
      collect results (assign name c components) (add_status c.status overall)

  -- `if overall_status == HealthStatus.UNHEALTHY`
  abbrev pub reply : HealthStatus → HealthResponse L → Reply L
  reply unhealthy r = unavailable r
  reply degraded r = ok r
  reply healthy r = ok r

  -- `gather` keeps the order of the checks, and with `return_exceptions` no exception leaves it.
  unfoldable pub ready : String → List (String × Checked L) → Reply L
  unfolding collect
  ready service results =
      let (components, overall) = collect results [] healthy in
      reply overall (record { service = service; status = overall; components = components })
