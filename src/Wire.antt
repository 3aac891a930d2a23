-- ===== src/Wire.antt =====
-- src/wire.rs, the DNS wire helpers: a module for each group of its functions.
pub mod Read
pub mod Name
pub mod Record
pub mod Query
pub mod Ttl
pub mod Truncate
pub mod Validate
