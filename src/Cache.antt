-- ===== src/Cache.antt =====
-- The catalogue cache: lib/cache/ of the source. `Codec` is the format of an entry, `Server` the
-- commands of the Valkey server, `Service` the class VersionedCacheService and `Slow` its log of slow
-- commands. `Pages` is the part of the class that stores a set page by page, and `Hashes` the server's
-- commands for that.
pub mod Codec
pub mod Hashes
pub mod Pages
pub mod Server
pub mod Service
pub mod Slow
mod Tests
