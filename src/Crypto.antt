-- ===== src/Crypto.antt =====
-- The codecs and the key formats of src/crypto.
pub mod Base64
