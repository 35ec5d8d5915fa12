-- ===== src/Bq/Schema.antt =====
-- crates/gcpx-bq/src/schema: table schemas, their validation, evolution and drift.
pub mod Types
pub mod Diff
pub mod Drift
pub mod Validate
pub mod Ddl
