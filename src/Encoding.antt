-- ===== src/Encoding.antt =====
-- The contract's text encodings (smart_contract/src/lib.rs): asset codes, base 32 and Stellar
-- keys.
pub mod Utf8
pub mod Util
pub mod Base32
pub mod Key
mod Tests
