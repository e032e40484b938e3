-- ===== src/Consumer.antt =====
-- internal/consumer: the background consumers.
pub mod Like
pub mod Signal
pub mod View
pub mod Count
pub mod Audit
