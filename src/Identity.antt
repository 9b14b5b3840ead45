-- ===== src/Identity.antt =====
-- libs/identity: one-time codes, users and sessions.
pub mod Otp
pub mod Users
pub mod Challenges
pub mod Sessions
mod Tests
