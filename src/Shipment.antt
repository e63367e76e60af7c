-- ===== src/Shipment.antt =====
-- services/shipment_service: shipments.
pub mod Entity
pub mod Port
pub mod Service
pub mod Repository
pub mod Worker
pub mod Dto
pub mod Api
pub mod Postgres
pub mod Items
pub mod ItemService
pub mod ItemLaws
pub mod ItemApi
