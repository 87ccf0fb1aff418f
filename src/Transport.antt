-- ===== src/Transport.antt =====
-- src/transport: what a server asks of a connection before it speaks the protocol with it.
pub mod Tokens
pub mod Hello
pub mod Hex
pub mod Builder
pub mod Noise
