-- ===== src/System.antt =====
-- The services together: what the coordinator publishes is what the other services' workers see.
pub mod Queue
pub mod Workers
pub mod Rollback
