-- ===== src/Tcp/Transport.antt =====
-- `TcpTransport` of src/transports/tcp.rs: the start and the stop of listeners, and outgoing
-- connections. The thread of a listener runs beside these calls; `Tcp/Listener` has what it does.
pub mod Listeners
pub mod Outgoing
pub mod Configs
use peer_net.Base.{
  ℕ, String, Option, none, some, List, [], ◌∷◌, Eq, ◌==◌, ◌⊎◌, inl, inr, set_insert, set_remove,
  if◌then◌else◌,
}
use peer_net.Base.Dict.{Dict, keys, lookup, insert, remove}
use peer_net.Address.{SocketAddr, addr_eq}
use peer_net.Error.{new, error, wrap_tcp, TcpError}
use peer_net.Act.{Outcome, ok, err, panicked, unfinished, Act, pure, ◌>>=◌, ◌>>◌}
use peer_net.Config.{TcpTransportConfig}
use peer_net.Config.Category.{PeerNetCategoryInfo, category_of}
use peer_net.Os.{Os, Joined, returned, thread_panicked}
use peer_net.World.{World, call}
use peer_net.Endpoint.{Endpoint, tcp}
use peer_net.Transport.{TransportType}
use peer_net.Connections.{ActiveConnections, Shared, on_active}
use peer_net.PeerConnection.{out}
use peer_net.Peer.{Handler, Running, new_peer}
use peer_net.Tcp.Listener.{set_tcp_stream_config, new_endpoint}

pub record TcpTransport : Type 0 where
  -- the waker and the thread of the listener at an address
  pub listeners : Dict SocketAddr (ℕ × ℕ)
  pub peer_stop_tx : ℕ
  pub peer_stop_rx : ℕ
  pub config : TcpTransportConfig
  pub total_bytes_received : ℕ
  pub total_bytes_sent : ℕ

-- `TcpTransport::new`, with the ends of a new channel.
unfoldable pub new_transport : TcpTransportConfig → ℕ → ℕ → ℕ × ℕ → TcpTransport
new_transport config total_received total_sent (stop_tx, stop_rx) = record {
  listeners = [];
  peer_stop_tx = stop_tx;
  peer_stop_rx = stop_rx;
  config = config;
  total_bytes_received = total_received;
  total_bytes_sent = total_sent;
}

-- A transport, and what it shares with the other threads.
pub record With (T : Type 0) (os : Os) (PeerId : Type 0) : Type 0 where
  pub transport : T
  pub shared : Shared os PeerId

abbrev pub On : Os → Type 0 → Type 0
On os PeerId = With TcpTransport os PeerId

module _ {os : Os} {PeerId : Type 0} where
  abbrev asks : {A : Type 0} → (os.State → A × os.State) → On os PeerId → A × On os PeerId
  asks f x =
      let r = call f x.shared.world in (r.0, record x { shared = record x.shared { world = r.1 } })

  -- The listener enters the shared table and the transport's own.
  listed : SocketAddr → ℕ × ℕ → On os PeerId → On os PeerId
  listed address thread x = record {
    transport = record x.transport { listeners = insert address thread x.transport.listeners };
    shared =
        on_active
          (λ active. record active {
            listeners = insert address TransportType.tcp active.listeners;
          })
          x.shared;
  }

  after_spawn : SocketAddr → ℕ → Option ℕ × On os PeerId → Outcome (Unit {0}) × On os PeerId
  unfolding listed
  after_spawn address waker (none, x) = (panicked, x)
  after_spawn address waker (some handle, x) = (ok tt, listed address (waker, handle) x)

  after_waker : SocketAddr → (String ⊎ ℕ) × On os PeerId → Outcome (Unit {0}) × On os PeerId
  unfolding after_spawn
  after_waker address (inl text, x) =
      (err (new (wrap_tcp TcpError.init_listener) "waker new" text none), x)
  after_waker address (inr waker, x) = after_spawn address waker (asks os.spawn x)

  after_poll : SocketAddr → Option String × On os PeerId → Outcome (Unit {0}) × On os PeerId
  unfolding after_waker
  after_poll address (some text, x) =
      (err (new (wrap_tcp TcpError.init_listener) "poll new" text none), x)
  after_poll address (none, x) = after_waker address (asks os.waker_new x)

  unfoldable pub start_listener : SocketAddr → Act (On os PeerId) (Unit {0})
  unfolding after_poll
  start_listener address x = after_poll address (asks os.poll_new x)

  after_join : Joined × On os PeerId → Outcome (Unit {0}) × On os PeerId
  after_join (returned none, x) = (ok tt, x)
  after_join (returned (some e), x) = (err e, x)
  after_join (thread_panicked, x) = (panicked, x)

  after_wake : ℕ → Option String × On os PeerId → Outcome (Unit {0}) × On os PeerId
  unfolding after_join
  after_wake handle (some text, x) =
      (err (new (wrap_tcp TcpError.stop_listener) "waker wake" text none), x)
  after_wake handle (none, x) = after_join (asks (os.join handle) x)

  -- The listener leaves the shared table and the transport's own.
  unlisted : SocketAddr → On os PeerId → On os PeerId
  unlisted address x = record {
    transport = record x.transport { listeners = remove address x.transport.listeners };
    shared =
        on_active (λ active. record active { listeners = remove address active.listeners })
          x.shared;
  }

  stop_found : SocketAddr → Option (ℕ × ℕ) → Act (On os PeerId) (Unit {0})
  unfolding after_wake unlisted
  stop_found address none x =
      (err (error (wrap_tcp TcpError.stop_listener) "rm addr" (some (os.show_address address))), x)
  stop_found address (some (waker, handle)) x =
      after_wake handle (asks (os.wake waker) (unlisted address x))

  unfoldable pub stop_listener : SocketAddr → Act (On os PeerId) (Unit {0})
  unfolding stop_found
  stop_listener address x = stop_found address (lookup address x.transport.listeners) x

  -- `unwrap` on the result of a stop
  unwrapped : Outcome (Unit {0}) × On os PeerId → Outcome (Unit {0}) × On os PeerId
  unwrapped (ok _, x) = (ok tt, x)
  unwrapped (err _, x) = (panicked, x)
  unwrapped (panicked, x) = (panicked, x)
  unwrapped (unfinished, x) = (unfinished, x)

  drop_all : List SocketAddr → Act (On os PeerId) (Unit {0})
  unfolding unwrapped
  drop_all [] = pure tt
  drop_all (address ∷ addresses) = (λ x. unwrapped (stop_listener address x)) >> drop_all addresses

  -- `Drop`: every listener is stopped.
  unfoldable pub drop_transport : Act (On os PeerId) (Unit {0})
  unfolding drop_all
  drop_transport x = drop_all (keys x.transport.listeners) x

-- The thread that `try_connect` starts. It ends with what the thread of the peer is started with.
module _ {os : Os} {PeerId : Type 0} (config : TcpTransportConfig) (total_received total_sent : ℕ)
    (address : SocketAddr) where
  after_connect :
      String
      → (String ⊎ ℕ) × World os
      → ActiveConnections PeerId
      → Outcome (Endpoint × (Option String × PeerNetCategoryInfo)) × Shared os PeerId
  after_connect attempt (inl text, w) active = (
    err (new (wrap_tcp TcpError.connection_error) "try_connect stream connect" text (some attempt)),
    record {
      active = record active {
        out_connection_queue = set_remove address active.out_connection_queue;
      };
      world = w;
    },
  )
  after_connect attempt (inr stream, w) active =
      let made =
        new_endpoint config total_received total_sent stream address
          (set_tcp_stream_config stream config w) in
      (
        ok (tcp made.0, category_of config.peer_categories config.default_category_info address),
        record { active = active; world = made.1 },
      )

  unfoldable pub connect :
      ℕ → Act (Shared os PeerId) (Endpoint × (Option String × PeerNetCategoryInfo))
  unfolding after_connect
  connect timeout s =
      after_connect (os.show_attempt address timeout)
        (call (os.connect_timeout address timeout) s.world)
        (record s.active {
          out_connection_queue = set_insert address s.active.out_connection_queue;
        })

-- The thread of an outgoing connection and then that of its peer, with no other thread between them. It
-- panics where the thread of the peer cannot be made.
unfoldable pub outgoing :
    {os : Os} {PeerId : Type 0} ⦃e : Eq PeerId⦄
    → Handler os PeerId
    → TcpTransportConfig
    → ℕ
    → ℕ
    → SocketAddr
    → ℕ
    → Act (Shared os PeerId) (Option (Running PeerId))
unfolding connect
outgoing handler config total_received total_sent address timeout =
    connect config total_received total_sent address timeout >>= λ (endpoint, (category, info)).
    new_peer handler endpoint out category info

module _ {os : Os} {PeerId : Type 0} where
  spawned : Option ℕ × On os PeerId → Outcome ℕ × On os PeerId
  spawned (none, x) = (panicked, x)
  spawned (some handle, x) = (ok handle, x)

  -- `try_connect`, which only starts the thread and gives its handle.
  unfoldable pub try_connect : Act (On os PeerId) ℕ
  unfolding spawned
  try_connect x = spawned (asks os.spawn x)
