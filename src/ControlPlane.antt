-- ===== src/ControlPlane.antt =====
-- The control plane (apps/observability-control-plane/src).
pub mod Documents
pub mod Store
pub mod Revisions
pub mod Holds
mod Tests
