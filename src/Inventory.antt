-- ===== src/Inventory.antt =====
-- The inventory service: services/inventory/src.
pub mod Domain
pub mod Validation
pub mod Validity
pub mod Schema
pub mod Statements
pub mod Fence
pub mod Reserve
pub mod Release
pub mod Consume
pub mod Reap
pub mod Ledger
pub mod Moves
pub mod Soundness
pub mod Transitions
pub mod Candidates
pub mod Conservation
pub mod Api
pub mod System
mod Samples
mod Examples
pub mod Holder
pub mod Fencing
pub mod Finality
pub mod Untouched
pub mod Consumed
pub mod Taking
pub mod Opening
pub mod Replay
pub mod Giving
pub mod Returning
