-- ===== src/Tests.antt =====
-- Runs on concrete messages and states, and the theorems at such points.
mod Wire
mod Proxy
mod Upstream
mod Forwarding
mod Desk
mod Config
