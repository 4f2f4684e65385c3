-- ===== src/Arrow.antt =====
-- src/snowglobe/arrow_stream.py: the admission of Arrow record batches, and their serialization.
pub mod Types
pub mod Cells
pub mod Library
pub mod Admission
pub mod Chunks
pub mod Steps
pub mod Soundness
pub mod Totals
pub mod Admitted
pub mod Streaming
