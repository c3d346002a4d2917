-- ===== src/Jcs.antt =====
-- sdks/rust/src/jcs.rs: the RFC 8785 encoder over the tagged algebra. `out` and `nodes`, which the
-- source passes as `&mut`, are the state `Output`; a writer that cannot fail is the bytes it appends.
pub mod Text
pub mod Order
pub mod Encode
