-- ===== src/Client.antt =====
-- src/client: what a client sends, and which request a server's message answers.
pub mod Actor
pub mod Peers
pub mod Inbound
pub mod Outbound
pub mod Exchange
