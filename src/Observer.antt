-- ===== src/Observer.antt =====
-- The observer: it reads evidence from the television and changes nothing on it.
pub mod Observation
pub mod Platform
pub mod Devices
pub mod ReadOnlyAdb
pub mod Collector
pub mod Snapshot
pub mod Recovery
