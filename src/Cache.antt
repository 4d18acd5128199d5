-- ===== src/Cache.antt =====
-- The caches of internal/cache.
pub mod Memory
