-- ===== src/Proxy.antt =====
-- src/proxy: the response cache, the handlers of the listeners and the takeover watchdog.
pub mod Lru
pub mod Cache
pub mod Handlers
pub mod Watchdog
pub mod Tcp
