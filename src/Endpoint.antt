-- ===== src/Endpoint.antt =====
-- The endpoints of src/transports/endpoint.rs, tcp.rs and quic.rs, as data. An endpoint holds handles:
-- of its stream or channels, and references to byte counters. A clone of an endpoint holds the same.
pub mod Dispatch
use peer_net.Base.{ℕ}
use peer_net.Address.{SocketAddr}
use peer_net.Config.{TcpConnectionConfig}

pub record TcpEndpoint : Type 0 where
  pub config : TcpConnectionConfig
  pub address : SocketAddr
  -- `stream_limiter`
  pub stream : ℕ
  pub total_bytes_received : ℕ
  pub total_bytes_sent : ℕ
  pub endpoint_bytes_received : ℕ
  pub endpoint_bytes_sent : ℕ

pub record QuicEndpoint : Type 0 where
  pub data_sender : ℕ
  pub data_receiver : ℕ
  pub address : SocketAddr
  pub total_bytes_received : ℕ
  pub total_bytes_sent : ℕ
  pub endpoint_bytes_received : ℕ
  pub endpoint_bytes_sent : ℕ

pub data Endpoint : Type 0 where
  tcp : TcpEndpoint → Endpoint
  quic : QuicEndpoint → Endpoint
  mock : ℕ → ℕ → SocketAddr → Endpoint

-- `Endpoint::get_target_addr`
unfoldable pub get_target_addr : Endpoint → SocketAddr
get_target_addr (tcp e) = e.address
get_target_addr (quic e) = e.address
get_target_addr (mock _ _ address) = address

-- `Endpoint::get_data_channel_size`
unfoldable pub get_data_channel_size : Endpoint → ℕ
get_data_channel_size (tcp e) = e.config.data_channel_size
get_data_channel_size (quic _) = 0
get_data_channel_size (mock _ _ _) = 0
