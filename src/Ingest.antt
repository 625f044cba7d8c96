-- ===== src/Ingest.antt =====
-- The ingest service (apps/telemetry-ingest/src, with the admission test of
-- packages/telemetry-delivery-core/src/payload.js).
pub mod Guard
pub mod Admission
pub mod Agreement
pub mod Admitted
mod Tests
