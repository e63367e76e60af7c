-- ===== src/Health.antt =====
-- libs/libs/health: the health checks of a service, and its readiness probe.
pub mod Checks
pub mod Router
pub mod Laws
