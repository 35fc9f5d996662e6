-- ===== src/Crypto.antt =====
-- src/client/crypto: what protects packets.
pub mod Eax
pub mod Crypt
