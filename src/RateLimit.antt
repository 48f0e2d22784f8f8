-- ===== src/RateLimit.antt =====
-- Rate limiting: the Lua script that both transports share, and the middlewares around it.
pub mod Arrivals
pub mod Gcra
pub mod Http
pub mod Grpc
pub mod Traffic
mod Tests
