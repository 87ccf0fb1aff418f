-- ===== src/Protocol.antt =====
-- The wire protocol: src/protocol and the error types of src/error.rs that it raises.
pub mod Error
pub mod Frame
pub mod MessageTypes
pub mod Versioning
pub mod Envelope
pub mod Validation
pub mod Messages
pub mod Codec
