-- ===== src/Crypto.antt =====
-- The crypto package: the JWKS client.
pub mod Base64
pub mod Hash
pub mod Jwks
mod Tests
