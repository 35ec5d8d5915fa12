-- ===== src/Dbt.antt =====
-- crates/gcpx-dbt: dbt models as SQL templates.
pub mod Scanner
pub mod Templates
pub mod Preprocess
pub mod Vars
pub mod Builtins
pub mod Options
pub mod Resolver
pub mod Ddl
pub mod Config
pub mod Conflicts
pub mod Contract
pub mod Validate
pub mod Model
pub mod Pipeline
pub mod Macros
