-- ===== src/Crypto.antt =====
-- The programs of cpp/crypto: AES with CryptoPP, and TLS and OCSP with GnuTLS.
pub mod Hex
pub mod Aes
pub mod Ocsp
pub mod ValidCa
mod Tests
