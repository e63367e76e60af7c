-- ===== src/Delivery.antt =====
-- services/delivery_service: couriers and deliveries.
pub mod Entity
pub mod Repository
pub mod Service
pub mod Worker
pub mod Dto
pub mod Api
pub mod Laws
pub mod Status
