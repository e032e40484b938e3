-- ===== src/Cache.antt =====
-- internal/cache: the helpers around the Redis client.
pub mod Redis
pub mod Like
pub mod Marker
pub mod Dedup
pub mod User
pub mod Feed
