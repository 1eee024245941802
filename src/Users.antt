-- ===== src/Users.antt =====
-- The users module (app/modules/users): accounts, sessions, refresh tokens, password resets and MFA.
pub mod Models
pub mod World
pub mod Rows
pub mod Repository
pub mod Cache
pub mod Refresh
pub mod Sessions
pub mod PasswordReset
pub mod Login
pub mod Mfa
pub mod Registration
