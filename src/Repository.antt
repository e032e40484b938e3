-- ===== src/Repository.antt =====
-- internal/repository: what the services and the consumers ask of MySQL.
pub mod Likes
pub mod Follows
pub mod Users
pub mod Posts
