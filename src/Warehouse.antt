-- ===== src/Warehouse.antt =====
-- services/warehouse_service: warehouses and inventory records.
pub mod Entity
pub mod Repository
pub mod Service
pub mod Worker
pub mod Dto
pub mod Api
pub mod ApiLaws
pub mod Laws
pub mod ReleaseOne
pub mod Release
