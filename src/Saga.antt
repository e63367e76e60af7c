-- ===== src/Saga.antt =====
-- services/saga_coordinator: the saga instances and the compensation of failed ones.
pub mod Entity
pub mod Repository
pub mod Service
pub mod Worker
pub mod Laws
pub mod Plan
pub mod Compensation
pub mod Api
pub mod Failures
pub mod ApiLaws
pub mod Lifecycle
