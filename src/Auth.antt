-- ===== src/Auth.antt =====
-- internal/auth: sign-in through Slack, and the validation of return targets.
pub mod ReturnTo
pub mod PreAuth
pub mod Settings
pub mod Login
pub mod Keyset
pub mod Callback
pub mod Account
pub mod Tests
