-- ===== src/Security.antt =====
-- src/security.
pub mod Crypto
