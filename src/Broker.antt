-- ===== src/Broker.antt =====
-- src/snowglobe/broker.py: the request broker of one analyst.
pub mod Records
pub mod State
pub mod Bodies
pub mod Methods
pub mod Lifecycle
pub mod Progress
pub mod Changes
pub mod Invariant
pub mod Eviction
pub mod Submission
pub mod Admission
pub mod Submit
pub mod History
pub mod Budgets
pub mod Access
pub mod Revocation
pub mod Publication
pub mod Drawing
pub mod Registered
pub mod Retained
