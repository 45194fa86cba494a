-- ===== src/Auth/Service.antt =====
-- Service of internal/auth/auth.go: log-in with lock-out, log-out, the check of an access token and
-- the refresh of tokens.
pub mod Defs
pub mod Login
pub mod Lockout
pub mod Sessions
