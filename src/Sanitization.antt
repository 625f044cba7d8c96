-- ===== src/Sanitization.antt =====
-- The sanitization of what the browser package records (packages/browser-observability/src/sanitization).
pub mod Patterns
pub mod Results
pub mod Strings
pub mod Attributes
pub mod Actions
pub mod Errors
pub mod Urls
pub mod Events
pub mod Removed
pub mod Bounds
pub mod Kept
mod Tests
