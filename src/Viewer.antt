-- ===== src/Viewer.antt =====
-- src/snowglobe/result_api.py: what the local viewer gets.
pub mod Frames
pub mod Decoding
pub mod Stream
pub mod Completion
pub mod Liveness
pub mod Routes
pub mod Contract
pub mod Answers
