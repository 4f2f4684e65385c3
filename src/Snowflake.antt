-- ===== src/Snowflake.antt =====
-- src/snowglobe/snowflake.py, snowflake_executor.py: the work behind an admitted query, on the
-- connector.
pub mod Connector
pub mod Cursor
pub mod Fetch
pub mod Execute
pub mod Session
pub mod Triples
pub mod Results
pub mod Silence
pub mod Given
pub mod Ownership
pub mod Refinement
pub mod Statements
pub mod Governed
