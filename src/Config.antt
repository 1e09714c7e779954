-- ===== src/Config.antt =====
-- internal/config
pub mod Upstream
pub mod Upstreams
pub mod SshUpstreams
pub mod Load
pub mod Tests
