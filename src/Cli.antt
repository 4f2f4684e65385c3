-- ===== src/Cli.antt =====
-- src/snowglobe/cli.py: the shell adapter.
pub mod Command
pub mod Answers
pub mod Closed
pub mod Transparent
