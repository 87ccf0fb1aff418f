-- ===== src/Examples.antt =====
-- Concrete inputs for the theorems of the other modules: two peers, their frames and their sessions.
pub mod Data
pub mod Routing
pub mod Exchanges
pub mod Formats
pub mod Worlds
pub mod Actor
pub mod Admission
pub mod Gate
pub mod Lifecycle
pub mod Links
