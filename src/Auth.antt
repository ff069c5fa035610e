-- ===== src/Auth.antt =====
-- Signing in (backend/app/auth): guessing protection, sessions, one-time challenges and codes.
pub mod Throttle
pub mod Sessions
pub mod Challenges
pub mod Totp
pub mod Setup
