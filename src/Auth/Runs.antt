-- ===== src/Auth/Runs.antt =====
-- Concrete runs of internal/auth.
mod Tokens
mod Limits
mod Logins
mod Gates
mod Guarded
mod Policies
