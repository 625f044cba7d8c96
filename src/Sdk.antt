-- ===== src/Sdk.antt =====
-- The browser package around runtime control (packages/browser-observability/src): its counters,
-- correlation context, options and configuration, lifecycle, consent, recording of events, start and shutdown.
pub mod Reasons
pub mod Counters
pub mod Correlation
pub mod NativeContext
pub mod Enrichment
pub mod Unforged
pub mod Configuration
pub mod Governed
pub mod Options
pub mod Accepted
mod ConfigurationTests
mod CorrelationTests
pub mod Lifecycle
pub mod Consent
pub mod Recording
pub mod Machine
pub mod Privacy
pub mod Coordinator
pub mod Page
pub mod Inactive
pub mod Activation
pub mod Documented
pub mod Orphan
mod Tests
