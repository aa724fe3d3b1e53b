-- ===== src/Auth.antt =====
-- internal/auth: logins through GitHub, and the sessions behind the session cookie.
pub mod States
pub mod Cookie
pub mod Allowlist
pub mod Sessions
pub mod Login
