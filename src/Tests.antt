-- ===== src/Tests.antt =====
-- Runs of the model on concrete inputs, and the theorems applied at inputs that meet their hypotheses.
pub mod Broker
pub mod Sql
mod Arrow
mod Control
mod Viewer
mod Routes
mod Config
mod Snowflake
pub mod Pydantic
mod Cli
mod Schemas
mod Startup
mod Service
