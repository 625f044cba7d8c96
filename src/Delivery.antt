-- ===== src/Delivery.antt =====
-- The delivery of telemetry (packages/telemetry-delivery-core, apps/telemetry-delivery-worker).
pub mod Routing
pub mod Patterns
pub mod Messages
pub mod Redaction
pub mod Clean
pub mod Redacted
pub mod Shape
pub mod Payload
pub mod Scoped
pub mod Control
pub mod Consumers
pub mod NoLoss
pub mod Counting
pub mod Fate
pub mod Holding
mod Tests
mod PayloadTests
