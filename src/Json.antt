-- ===== src/Json.antt =====
-- sdks/rust/src/json.rs: the tagged JSON algebra and its decoder.
pub mod Value
pub mod Closed
pub mod Text
pub mod Number
pub mod Decode
