-- ===== src/Bq.antt =====
-- crates/gcpx-bq: the BigQuery resources.
pub mod Schema
pub mod Dataset
pub mod Routine
pub mod Table
pub mod Checks
