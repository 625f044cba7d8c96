-- ===== src/RuntimeControl.antt =====
-- The page-lifetime runtime-control overlay of the browser package
-- (packages/browser-observability/src/runtime-control): its registry, the validation of a fetched
-- control document, its application to the registry, the collection gate and the refresh loop.
pub mod Registry
pub mod Document
pub mod Apply
pub mod Latch
pub mod Bookkeeping
pub mod GateAgreement
pub mod Validation
pub mod Schedule
pub mod Delay
pub mod Engine
pub mod Loop
pub mod DuplicateKeys
pub mod Fetch
pub mod FailClosed
mod Tests
