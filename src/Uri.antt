-- ===== src/Uri.antt =====
-- sdks/rust/src/uri.rs: target URIs and their one normal form.
pub mod Octets
pub mod Dots
pub mod Host
pub mod Normalize
