-- ===== src/Osdns.antt =====
-- The takeover of the system's DNS on macOS: src/osdns.
pub mod IpText
pub mod Addresses
pub mod Scutil
pub mod Backup
pub mod Tools
pub mod Listing
pub mod Commands
pub mod Takeover
pub mod Release
pub mod Cycle
pub mod Watch
pub mod Inspect
pub mod Protocol
