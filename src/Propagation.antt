-- ===== src/Propagation.antt =====
-- Propagation of identities and trace context: libs/playground-telemetry/src/propagation.rs.
pub mod Bytes
pub mod Percent
pub mod Headers
pub mod Tenant
pub mod Agreement
pub mod Refusal
pub mod Traceparent
pub mod Tracestate
pub mod Members
pub mod Baggage
pub mod Grammar
pub mod Trim
pub mod Carried
pub mod Durable
pub mod Complete
pub mod Business
pub mod Safety
pub mod Samples
mod Examples
