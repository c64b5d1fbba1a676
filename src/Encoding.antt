-- ===== src/Encoding.antt =====
-- src/encoding
pub mod Pkcs7
pub mod Crypto
pub mod Hex
pub mod Base64
pub mod Base32
