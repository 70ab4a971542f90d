-- ===== src/Tcp/Listener.antt =====
-- The listener of src/transports/tcp.rs: what its thread does with an accepted connection. What it does
-- under the lock of the table is a function of the table, `has_room` under the read lock and
-- `enter_queue` under the write lock; `accept_one` puts them together.
pub mod System
pub mod Thread
use peer_net.Base.{
  ℕ, ◌+◌, String, Option, none, some, Bool, true, false, not, Eq, ◌==◌, leb, count_if, length,
  set_insert, set_remove, if◌then◌else◌,
}
use peer_net.Base.Dict.{Dict, values}
use peer_net.Address.{SocketAddr, addr_eq}
use peer_net.Act.{Outcome, ok, err, panicked, unfinished, Act, attempt, ◌>>=◌}
use peer_net.Config.{TcpTransportConfig}
use peer_net.Config.Category.{PeerNetCategoryInfo, category_of}
use peer_net.Os.{Os}
use peer_net.World.{World, change, call, new_counter}
use peer_net.Endpoint.{TcpEndpoint, Endpoint, tcp}
use peer_net.PeerConnection.{in_, connection_type_eq}
use peer_net.Transport.{TransportType}
use peer_net.Connections.{
  ActiveConnections, Shared, on_active, on_world, compute_counters,
  check_addr_accepted_pre_handshake,
}
use peer_net.Peer.{Handler}

module _ {PeerId : Type 0} where
  -- `total_in_connections`: the incoming connections and those that wait for their handshake.
  abbrev pub total_in_connections : ActiveConnections PeerId → ℕ
  total_in_connections active =
      count_if (λ c. c.connection_type == in_) (values active.connections)
      + length active.in_connection_queue

  unfoldable pub has_room : TcpTransportConfig → ActiveConnections PeerId → Bool
  has_room config active = not (leb config.max_in_connections (total_in_connections active))

  -- The address enters the queue whatever the check says. A refused one gets the listeners, for its
  -- fallback.
  unfoldable pub enter_queue :
      SocketAddr
      → Option String
      → PeerNetCategoryInfo
      → ActiveConnections PeerId
      → Option (Dict SocketAddr TransportType) × ActiveConnections PeerId
  enter_queue address category info active =
      let queued = record active {
        in_connection_queue = set_insert address active.in_connection_queue;
      } in
      if check_addr_accepted_pre_handshake queued address category info
      then (none, compute_counters queued)
      else (some queued.listeners, queued)

  unfoldable pub give_up : SocketAddr → ActiveConnections PeerId → ActiveConnections PeerId
  give_up address active = record active {
    in_connection_queue = set_remove address active.in_connection_queue;
  }

-- What becomes of an accepted connection.
pub data Accepted : Type 0 where
  no_room refused : Accepted
  started : Endpoint → Option String → PeerNetCategoryInfo → Accepted

module _ {os : Os} where
  -- `set_tcp_stream_config`, whose failures are only logged
  unfoldable pub set_tcp_stream_config : ℕ → TcpTransportConfig → World os → World os
  set_tcp_stream_config stream config w =
      change
        (λ s.
          let s₁ = os.set_nonblocking stream s in
          let s₂ = (os.set_read_timeout stream config.read_timeout s₁).1 in
          (os.set_write_timeout stream config.write_timeout s₂).1)
        w

  -- The endpoint of a new stream, with counters of its own.
  unfoldable pub new_endpoint :
      TcpTransportConfig → ℕ → ℕ → ℕ → SocketAddr → World os → TcpEndpoint × World os
  unfolding new_counter
  new_endpoint config total_received total_sent stream address w =
      let r = new_counter w in
      let q = new_counter r.1 in
      (
        record {
          config = config.connection_config;
          address = address;
          stream = stream;
          total_bytes_received = total_received;
          total_bytes_sent = total_sent;
          endpoint_bytes_received = r.0;
          endpoint_bytes_sent = q.0;
        },
        q.1,
      )

module _ {os : Os} {PeerId : Type 0} (handler : Handler os PeerId) (config : TcpTransportConfig)
    (total_received total_sent : ℕ) where
  -- The result of the fallback is only logged; the address leaves the queue after it.
  after_fallback : SocketAddr → Outcome (Unit {0}) → Act (Shared os PeerId) Accepted
  after_fallback address (ok _) s = (ok refused, on_active (give_up address) s)
  after_fallback address (err _) s = (ok refused, on_active (give_up address) s)
  after_fallback address panicked s = (panicked, s)
  after_fallback address unfinished s = (unfinished, s)

  decide :
      TcpEndpoint
      → SocketAddr
      → Option String
      → PeerNetCategoryInfo
      → Option (Dict SocketAddr TransportType)
      → Act (Shared os PeerId) Accepted
  unfolding after_fallback
  decide endpoint address category info none s = (ok (started (tcp endpoint) category info), s)
  decide endpoint address category info (some listeners) s =
      let r = on_world (handler.fallback (tcp endpoint) listeners) s in
      after_fallback address r.0 r.1

  -- An accepted stream and its address. A connection that is `started` gets a peer's thread.
  unfoldable pub accept_one : ℕ → SocketAddr → Act (Shared os PeerId) Accepted
  unfolding decide
  accept_one stream address s =
      let (category, info) =
        category_of config.peer_categories config.default_category_info address in
      let (endpoint, w) =
        new_endpoint config total_received total_sent stream address
          (set_tcp_stream_config stream config s.world) in
      let (verdict, active) = enter_queue address category info s.active in
      if has_room config s.active
      then decide endpoint address category info verdict (record { active = active; world = w })
      else (ok no_room, s)
