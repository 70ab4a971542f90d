-- ===== src/Quic.antt =====
-- src/transports/quic.rs
pub mod Channel
pub mod Transport
pub mod Quiche
pub mod Connection
pub mod Listener
pub mod Outgoing
