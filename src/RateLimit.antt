-- ===== src/RateLimit.antt =====
-- The request-rate limiter: app/rate-limit/ of the source. `Bucket` is one token bucket of the
-- charge script, `Script` the script over a request's buckets, `Store` the client of the script and
-- `Guard` the guard that every route passes.
pub mod Bucket
pub mod Script
pub mod Store
pub mod Guard
mod Tests
