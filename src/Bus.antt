-- ===== src/Bus.antt =====
-- internal/event: the event buses.
pub mod Channel
pub mod Rabbit
