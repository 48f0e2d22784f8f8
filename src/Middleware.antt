-- ===== src/Middleware.antt =====
-- The HTTP and gRPC middlewares of server/middleware that have no module of their own.
pub mod Base
pub mod Gate
pub mod Idempotency
pub mod Recovery
pub mod Trace
mod Tests
