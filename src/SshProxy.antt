-- ===== src/SshProxy.antt =====
-- internal/sshproxy: the SSH bastion.
pub mod Roles
pub mod Handshake
pub mod Registry
pub mod Forward
pub mod Listeners
pub mod Connection
pub mod Tests
