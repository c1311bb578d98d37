-- ===== src/Security.antt =====
-- Password hashing, tokens and route guards: api/app/security.
pub mod Passwords
pub mod Tokens
pub mod Header
pub mod Guards
pub mod Admission
pub mod RoundTrip
pub mod Lifetime
pub mod Roles
pub mod Stale
pub mod Opened
pub mod Obey
