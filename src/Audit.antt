-- ===== src/Audit.antt =====
-- The audit package.
pub mod Event
pub mod Drops
pub mod Async
pub mod Kafka
mod Tests
