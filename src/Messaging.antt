-- ===== src/Messaging.antt =====
-- The messaging package.
pub mod Consumer
pub mod Env
pub mod Retry
pub mod Loop
pub mod Manager
pub mod Producer
mod Tests
