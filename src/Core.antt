-- ===== src/Core.antt =====
-- crates/gcpx-core: the parts that every resource shares.
pub mod Breaker
pub mod Redact
pub mod Errors
pub mod Sanitize
pub mod Lifecycle
pub mod Lro
pub mod Http
pub mod Resource
