-- ===== src/Startup.antt =====
-- The start of the service and its rehearsal: src/snowglobe/runtime.py, preflight.py, the main of
-- local_server.py, and the creation of the executor in snowflake_executor.py.
pub mod Runtime
pub mod Console
pub mod Preflight
pub mod LocalServer
pub mod Agreement
pub mod Harmless
pub mod Configured
pub mod Service
pub mod Exits
pub mod Bounded
