-- ===== src/Control.antt =====
-- src/snowglobe/executor.py, control.py, contracts.py, mcp_gateway.py: the work behind one pending
-- record, and the receipts that the model sees of it.
pub mod Executor
pub mod Settled
pub mod Contracts
pub mod Plane
pub mod Gateway
pub mod Receipts
pub mod Accepted
pub mod Json
pub mod Shapes
pub mod Schemas
pub mod Tools
pub mod Advertised
pub mod Conforming
