-- ===== src/Selector.antt =====
-- sdks/rust/src/selector.rs: the selector algebra that binds a grant's operation to a request.
pub mod Lookup
pub mod Identity
pub mod Evaluate
