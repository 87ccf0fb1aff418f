-- ===== src/Server.antt =====
-- The session pipeline of src/server: connections, sessions, handlers and routers.
pub mod Connections
pub mod Sessions
pub mod Handlers
pub mod Outbound
pub mod Pipeline
pub mod Lifecycle
pub mod Gate
pub mod Prefixed
pub mod Config
