-- ===== src/Command.antt =====
-- cmd/forge-proxy: the command line, the daemon, the server's life and its readiness.
pub mod Flags
pub mod Daemon
pub mod Ready
pub mod Life
pub mod Tests
