-- ===== src/Config.antt =====
-- src/config.rs. The `toml` and `serde` crates, which make the raw sections from a file, are not
-- part of the model: it starts at the raw sections.
pub mod Endpoint
pub mod Upstreams
pub mod Valid
pub mod Load
