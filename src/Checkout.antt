-- ===== src/Checkout.antt =====
-- The checkout service: services/checkout/src.
pub mod Errors
pub mod Outbox
pub mod Broker
pub mod Lifecycle
pub mod Refinement
pub mod Budget
pub mod Due
pub mod Sending
pub mod Quotes
pub mod Balance
pub mod Answers
mod Samples
mod Examples
