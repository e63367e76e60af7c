-- ===== src/Tests.antt =====
-- The theorems at concrete inputs.
pub mod Unary
pub mod Fixtures
pub mod Coordinator
pub mod Sagas
pub mod Messages
pub mod Warehouses
pub mod Deliveries
pub mod Shipments
pub mod Items
pub mod Rollbacks
pub mod Accounts
pub mod Events
pub mod Requests
pub mod Registration
pub mod Chain
pub mod Caches
pub mod Services
