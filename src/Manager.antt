-- ===== src/Manager.antt =====
-- `PeerNetManager` of src/network_manager.rs: the transports, which are made when they are first
-- needed, and the calls of the program.
pub mod Configured
pub mod Addresses
pub mod Drop
pub mod Totals
use peer_net.Base.{ℕ, Option, none, some, List, [], ◌∷◌}
use peer_net.Base.Dict.{Dict, lookup, insert, values}
use peer_net.Address.{SocketAddr, v4_addr}
use peer_net.Act.{Outcome, ok, err, panicked, unfinished, Act, pure, ◌>>◌}
use peer_net.Config.{PeerNetConfiguration, TcpTransportConfig, QuicTransportConfig}
use peer_net.Os.{Os}
use peer_net.World.{World, call, new_counter}
use peer_net.Endpoint.Dispatch
use peer_net.Transport.{TransportType, transport_type_eq}
use peer_net.PeerConnection.{PeerConnection}
use peer_net.Connections.{Shared, empty}
use peer_net.Tcp.Transport.{With}
use peer_net.InternalTransport
use peer_net.InternalTransport.{InternalTransport, TransportConfig, from_transport_type}

pub record Manager (os : Os) (PeerId Ctx : Type 0) : Type 0 where
  pub config : PeerNetConfiguration Ctx
  -- `active_connections`, and the world with it
  pub shared : Shared os PeerId
  pub transports : Dict TransportType InternalTransport
  pub total_bytes_received : ℕ
  pub total_bytes_sent : ℕ

module _ {Ctx : Type 0} (config : PeerNetConfiguration Ctx) where
  unfoldable pub tcp_config : TcpTransportConfig
  tcp_config = record {
    max_in_connections = config.max_in_connections;
    peer_categories = config.peers_categories;
    default_category_info = config.default_category_info;
    connection_config = record {
      rate_limit = config.rate_limit;
      rate_time_window = config.rate_time_window;
      rate_bucket_size = config.rate_bucket_size;
      data_channel_size = config.send_data_channel_size;
      max_message_size = config.max_message_size;
      read_timeout = config.read_timeout;
      write_timeout = config.write_timeout;
    };
    read_timeout = config.read_timeout;
    write_timeout = config.write_timeout;
  }

  -- The local address is 127.0.0.1:8080.
  unfoldable pub quic_config : QuicTransportConfig
  quic_config = record {
    connection_config = record {
      local_addr = v4_addr 0x7f000001 8080;
      data_channel_size = config.send_data_channel_size;
    };
  }

  unfoldable pub transport_config : TransportType → TransportConfig
  unfolding tcp_config quic_config
  transport_config TransportType.tcp = TransportConfig.tcp tcp_config
  transport_config TransportType.quic = TransportConfig.quic quic_config

module _ {os : Os} where
  shutdown_all : List PeerConnection → Act (World os) (Unit {0})
  shutdown_all [] = pure tt
  shutdown_all (c ∷ cs) = Dispatch.shutdown c.endpoint >> shutdown_all cs

module _ {os : Os} {PeerId Ctx : Type 0} where
  unfoldable pub new : PeerNetConfiguration Ctx → World os → Manager os PeerId Ctx
  new config w =
      let (total_received, w₁) = new_counter w in
      let (total_sent, w₂) = new_counter w₁ in
      record {
        config = config;
        shared = record { active = empty; world = w₂ };
        transports = [];
        total_bytes_received = total_received;
        total_bytes_sent = total_sent;
      }

  made :
      TransportType
      → Manager os PeerId Ctx
      → Option InternalTransport
      → Outcome InternalTransport × Manager os PeerId Ctx
  made kind m none = (panicked, m)
  made kind m (some t) = (ok t, record m { transports = insert kind t m.transports })

  found :
      TransportType
      → SocketAddr
      → Manager os PeerId Ctx
      → Option InternalTransport
      → Outcome InternalTransport × Manager os PeerId Ctx
  unfolding made
  found kind address m (some t) = (ok t, m)
  found kind address m none =
      let r = call os.unbounded m.shared.world in
      made kind (record m { shared = record m.shared { world = r.1 } })
        (from_transport_type kind (transport_config m.config kind) address m.total_bytes_received
          m.total_bytes_sent r.0)

  -- `entry(..).or_insert_with(..)`: the transport, which is made with the address of the call if there
  -- is none yet.
  entry : TransportType → SocketAddr → Act (Manager os PeerId Ctx) InternalTransport
  unfolding found
  entry kind address m = found kind address m (lookup kind m.transports)

  -- A call of a transport, which is changed in place.
  on_entry :
      {A : Type 0}
      → TransportType
      → (InternalTransport → Shared os PeerId → Outcome A × With InternalTransport os PeerId)
      → Outcome InternalTransport × Manager os PeerId Ctx
      → Outcome A × Manager os PeerId Ctx
  on_entry kind call_of (ok t, m) =
      let r = call_of t m.shared in
      (r.0, record m { shared = r.1.shared; transports = insert kind r.1.transport m.transports })
  on_entry kind call_of (err e, m) = (err e, m)
  on_entry kind call_of (panicked, m) = (panicked, m)
  on_entry kind call_of (unfinished, m) = (unfinished, m)

  unfoldable pub start_listener :
      TransportType → SocketAddr → Act (Manager os PeerId Ctx) (Unit {0})
  unfolding entry on_entry
  start_listener kind address m =
      on_entry kind (InternalTransport.start_listener address) (entry kind address m)

  unfoldable pub stop_listener : TransportType → SocketAddr → Act (Manager os PeerId Ctx) (Unit {0})
  unfolding entry on_entry
  stop_listener kind address m =
      on_entry kind (InternalTransport.stop_listener address) (entry kind address m)

  -- Gives the handle of the thread that connects.
  unfoldable pub try_connect : TransportType → SocketAddr → Act (Manager os PeerId Ctx) ℕ
  unfolding entry on_entry
  try_connect kind address m = on_entry kind InternalTransport.try_connect (entry kind address m)

  -- `Drop`: every connection is taken out and shut down.
  unfoldable pub drop_manager : Act (Manager os PeerId Ctx) (Unit {0})
  unfolding shutdown_all
  drop_manager m =
      let r = shutdown_all (values m.shared.active.connections) m.shared.world in
      (
        r.0,
        record m {
          shared = record { active = record m.shared.active { connections = [] }; world = r.1 };
        },
      )

  -- The counters of the table and of the manager.
  unfoldable pub nb_in_connections : Manager os PeerId Ctx → ℕ
  nb_in_connections m = m.shared.active.nb_in_connections

  unfoldable pub get_total_bytes_received : Manager os PeerId Ctx → ℕ
  get_total_bytes_received m = m.shared.world.counters m.total_bytes_received

  unfoldable pub get_total_bytes_sent : Manager os PeerId Ctx → ℕ
  get_total_bytes_sent m = m.shared.world.counters m.total_bytes_sent
