-- ===== src/Pricing.antt =====
-- The pricing service: services/pricing/src.
pub mod Quote
pub mod Request
pub mod Calculate
pub mod Expiry
pub mod Collision
pub mod Samples
pub mod Balance
pub mod Validate
pub mod Accepted
pub mod Cache
pub mod Fresh
mod Examples
