-- ===== src/Cache.antt =====
-- The cache and the rate limiter (packages/shared/src/cache).
pub mod Redis
pub mod Connection
pub mod Service
pub mod Entities
pub mod Entries
pub mod Window
