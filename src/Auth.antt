-- ===== src/Auth.antt =====
-- src/api/src/modules/auth: accounts, passwords and sessions.
pub mod Rows
pub mod Sessions
pub mod Accounts
pub mod Login
pub mod Rotation
pub mod Passwords
mod Tests
