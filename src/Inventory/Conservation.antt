-- ===== src/Inventory/Conservation.antt =====
-- The stock ledger under each operation of services/inventory/src/infrastructure.rs.
pub mod Shared
pub mod Reserve
pub mod Release
pub mod Consume
pub mod Reap
