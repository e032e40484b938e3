-- ===== src/Service.antt =====
-- internal/service: the business operations.
pub mod World
pub mod Like
pub mod Follow
pub mod User
pub mod Authors
pub mod Post
pub mod Search
pub mod Upload
