-- ===== src/LoginThrottle.antt =====
-- The progressive throttle on login attempts: domain/auth/services/ of the source. `Ladder` is one
-- caller's position as the scripts decide on it, `Scripts` the two scripts over the server's
-- hashes, `Service` their client and
-- `Interceptor` the interceptor around the login handler.
pub mod Ladder
pub mod Scripts
pub mod Service
pub mod Interceptor
mod Tests
