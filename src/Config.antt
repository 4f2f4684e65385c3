-- ===== src/Config.antt =====
-- src/snowglobe/configuration.py: the two profiles that an analyst writes.
pub mod Toml
pub mod Profiles
pub mod Loading
pub mod PrivateKey
pub mod Arguments
pub mod Connection
