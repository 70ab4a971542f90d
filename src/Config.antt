-- ===== src/Config.antt =====
-- src/config.rs, and the configuration records of src/transports/tcp.rs and quic.rs. A `Duration` is
-- its nanoseconds.
pub mod Category
use peer_net.Base.{ℕ, ◌*◌, ◌^◌, ◌-◌, min, String, List, []}
use peer_net.Address.{IpAddr, SocketAddr}
use Category.{PeerNetCategoryInfo, PeerNetCategories}

abbrev pub u64_max : ℕ
u64_max = 2 ^ 64 - 1

abbrev pub from_secs : ℕ → ℕ
from_secs n = n * 1_000_000_000

abbrev saturating_mul : ℕ → ℕ → ℕ
saturating_mul a b = min (a * b) u64_max

abbrev pub rate_limit_default : ℕ
rate_limit_default = u64_max

-- `PeerNetFeatures` has no field, and the handlers are parameters of the model.
pub record PeerNetConfiguration (Ctx : Type 0) : Type 0 where
  pub context : Ctx
  pub max_in_connections : ℕ
  pub max_message_size : ℕ
  pub send_data_channel_size : ℕ
  pub rate_limit : ℕ
  pub rate_time_window : ℕ
  pub rate_bucket_size : ℕ
  pub peers_categories : PeerNetCategories
  pub default_category_info : PeerNetCategoryInfo
  pub write_timeout : ℕ
  pub read_timeout : ℕ

-- `PeerNetConfiguration::default`
unfoldable pub default : {Ctx : Type 0} → Ctx → PeerNetConfiguration Ctx
default context = record {
  context = context;
  max_in_connections = 10;
  peers_categories = [];
  max_message_size = 1_048_576_000;
  send_data_channel_size = 10_000;
  default_category_info = record {
    max_in_connections = 0;
    max_in_connections_per_ip = 0;
    max_out_connections = 0;
  };
  rate_time_window = from_secs 1;
  rate_bucket_size = saturating_mul rate_limit_default 3;
  rate_limit = rate_limit_default;
  write_timeout = from_secs 7;
  read_timeout = from_secs 7;
}

pub record TcpConnectionConfig : Type 0 where
  pub rate_limit : ℕ
  pub rate_time_window : ℕ
  pub rate_bucket_size : ℕ
  pub data_channel_size : ℕ
  pub max_message_size : ℕ
  pub write_timeout : ℕ
  pub read_timeout : ℕ

-- `TcpConnectionConfig::default`
unfoldable pub tcp_connection_default : TcpConnectionConfig
tcp_connection_default = record {
  rate_limit = 10 * 1024;
  rate_time_window = from_secs 1;
  rate_bucket_size = 10 * 1024;
  max_message_size = 100_000;
  data_channel_size = 10_000;
  write_timeout = from_secs 7;
  read_timeout = from_secs 7;
}

pub record TcpTransportConfig : Type 0 where
  pub max_in_connections : ℕ
  pub connection_config : TcpConnectionConfig
  pub peer_categories : PeerNetCategories
  pub default_category_info : PeerNetCategoryInfo
  pub write_timeout : ℕ
  pub read_timeout : ℕ

pub record QuicConnectionConfig : Type 0 where
  pub local_addr : SocketAddr
  pub data_channel_size : ℕ

pub record QuicTransportConfig : Type 0 where
  pub connection_config : QuicConnectionConfig
