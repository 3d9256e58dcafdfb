-- ===== src/Auth.antt =====
-- Sign-in, sessions and authorization (domain/auth, app/guards).
pub mod Tokens
pub mod Server
pub mod Table
pub mod Hash
pub mod Sessions
pub mod Service
pub mod Guards
pub mod Request
mod Signed
mod Tests
