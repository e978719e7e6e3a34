-- ===== src/Notifications.antt =====
-- The notifications service: services/notifications/src.
pub mod Schema
pub mod Channel
pub mod Enqueue
pub mod Claim
pub mod Marks
pub mod Worker
pub mod Progress
pub mod Invariant
pub mod Advance
pub mod Outcomes
pub mod Process
pub mod Arrival
pub mod System
mod Carriers
mod Stored
pub mod Samples
mod Examples
pub mod Retry
pub mod Leases
pub mod Claims
pub mod Repeat
