-- ===== src/Tcp.antt =====
-- src/transports/tcp.rs
pub mod Exact
pub mod Framing
pub mod Stream
pub mod Listener
pub mod Transport
