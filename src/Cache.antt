-- ===== src/Cache.antt =====
-- The TTL cache of internal/cache/cache.go.
pub mod Store
pub mod Freshness
mod Tests
