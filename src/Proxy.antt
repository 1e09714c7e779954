-- ===== src/Proxy.antt =====
-- internal/proxy: the reverse proxy.
pub mod Host
pub mod Headers
pub mod Outgoing
pub mod Serve
pub mod Tests
