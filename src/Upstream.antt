-- ===== src/Upstream.antt =====
-- src/upstream/: the upstream manager and its transports.
pub mod Net
pub mod Bootstrap
pub mod Encrypted
pub mod Legacy
pub mod Manager
pub mod Hedged
pub mod Resolve
pub mod Setup
