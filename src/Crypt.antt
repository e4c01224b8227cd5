-- ===== src/Crypt.antt =====
-- runtime/src/utils/crypt.cpp.
pub mod Base64
pub mod Bits
pub mod Words
pub mod Blocks
pub mod Md5
pub mod Sha1
pub mod Hmac
mod Tests
