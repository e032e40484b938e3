-- ===== src/Tests.antt =====
-- The parameters held in memory, and the theorems applied to them.
mod MemoryTables
mod MemoryRedis
mod MemoryFollows
mod MemoryUsers
mod Config
mod Search
mod Rabbit
mod Clear
mod Migration
mod Upload
mod UserService
mod PostService
mod Middleware
mod LikeConsumer
mod Bus
mod Consumers
mod FeedCache
mod FollowService
mod LikeService
mod Text
mod Audit
