-- ===== src/Protocol/Messages.antt =====
-- The typed messages of src/protocol/messages.
pub mod ClientToServer
pub mod ServerToClient
