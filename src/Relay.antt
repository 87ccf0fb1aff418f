-- ===== src/Relay.antt =====
-- The routed relay of src/server/routed_listener.rs.
pub mod Registry
pub mod Session
pub mod World
pub mod Gate
