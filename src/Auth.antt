-- ===== src/Auth.antt =====
-- internal/auth: the rate limiter and guards, users and sessions, tokens and the log-in service.
pub mod RateLimit
pub mod Guards
pub mod Models
pub mod Jwt
pub mod Service
pub mod Passwords
pub mod Gate
mod Samples
mod Runs
