-- ===== src/Sql.antt =====
-- src/snowglobe/sql_policy.py: the policy on read queries.
pub mod Glot
pub mod Names
pub mod Policy
pub mod Soundness
pub mod RowCap
pub mod Views
