-- ===== src/Blockchain.antt =====
-- services/blockchain_service: records of transactions, their registration and confirmation.
pub mod Entity
pub mod Repository
pub mod Service
pub mod Workers
pub mod Tasks
pub mod Laws
pub mod Interleaving
pub mod GatherLaws
pub mod Gateway
pub mod GatewayLaws
pub mod Main
pub mod MainLaws
pub mod Settled
