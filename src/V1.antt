-- ===== src/V1.antt =====
-- sdks/rust/src/v1.rs, the contract-major-1 façade: the parts that are modelled.
pub mod Identifier
pub mod Claims
pub mod Grant
pub mod Proof
pub mod Envelope
pub mod Frames
pub mod Chain
pub mod Producer
pub mod KeyPath
pub mod Segments
pub mod Anchors
