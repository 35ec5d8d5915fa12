-- ===== src/Examples.antt =====
-- Runs of the theorems at concrete inputs, and tests of the definitions.
mod Breaker
mod Client
mod Messages
mod Schema
mod Resources
mod Templates
mod Dbt
mod Models
mod Agents
