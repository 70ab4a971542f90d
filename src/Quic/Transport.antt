-- ===== src/Quic/Transport.antt =====
-- `QuicTransport` of src/transports/quic.rs: the start and the stop of listeners, and the start of an
-- outgoing connection. The threads that these start, which drive `quiche`, are not modelled.
pub mod Configs
use peer_net.Base.{ℕ, String, Option, none, some, Bool, true, false, [], ◌⊎◌, inl, inr}
use peer_net.Base.Dict.{Dict, lookup, insert, remove, contains_key}
use peer_net.Address.{SocketAddr, addr_eq}
use peer_net.Error.{PeerNetErrorData, new, error, wrap_quic, QuicError}
use peer_net.Act.{ok, err, panicked, Act, pure, modify, ◌>>=◌, ◌>>◌}
use peer_net.Config.{QuicTransportConfig}
use peer_net.Os.{Os, Joined, returned, thread_panicked}
use peer_net.World.{call, change}
use peer_net.Transport.{TransportType}
use peer_net.Connections.{on_active}
use peer_net.Tcp.Transport.{With}

pub record QuicTransport : Type 0 where
  -- the waker, the socket and the thread of the listener at an address
  pub listeners : Dict SocketAddr (ℕ × (ℕ × ℕ))
  pub stop_peer_tx : ℕ
  pub stop_peer_rx : ℕ
  pub config : QuicTransportConfig
  pub total_bytes_received : ℕ
  pub total_bytes_sent : ℕ

-- `QuicTransport::new`, with the ends of a new channel.
unfoldable pub new_transport : ℕ → SocketAddr → ℕ → ℕ → ℕ × ℕ → QuicTransport
new_transport data_channel_size local_addr total_received total_sent (stop_tx, stop_rx) = record {
  listeners = [];
  stop_peer_tx = stop_tx;
  stop_peer_rx = stop_rx;
  config = record {
    connection_config = record { local_addr = local_addr; data_channel_size = data_channel_size };
  };
  total_bytes_received = total_received;
  total_bytes_sent = total_sent;
}

abbrev pub On : Os → Type 0 → Type 0
On os PeerId = With QuicTransport os PeerId

-- Calls of the operating system on the state of a transport.
module _ {os : Os} {PeerId T : Type 0} where
  abbrev pub ask : {A : Type 0} → (os.State → A × os.State) → Act (With T os PeerId) A
  ask f x =
      let r = call f x.shared.world in
      (ok r.0, record x { shared = record x.shared { world = r.1 } })

  -- with `?`, and with `unwrap`
  unfoldable pub or_error :
      (String → PeerNetErrorData) → Option String → Act (With T os PeerId) (Unit {0})
  or_error wrap none = pure tt
  or_error wrap (some text) = λ x. (err (wrap text), x)

  unfoldable pub or_panic : {A : Type 0} → Option A → Act (With T os PeerId) A
  or_panic none = λ x. (panicked, x)
  or_panic (some a) = pure a

  unfoldable pub or_error_with :
      {A : Type 0} → (String → PeerNetErrorData) → String ⊎ A → Act (With T os PeerId) A
  or_error_with wrap (inl text) = λ x. (err (wrap text), x)
  or_error_with wrap (inr a) = pure a

  abbrev pub check :
      (String → PeerNetErrorData)
      → (os.State → Option String × os.State)
      → Act (With T os PeerId) (Unit {0})
  check wrap f = ask f >>= or_error wrap

  abbrev pub unwrap : {A : Type 0} → (os.State → Option A × os.State) → Act (With T os PeerId) A
  unwrap f = ask f >>= or_panic

  after_join : Joined → Act (With T os PeerId) (Unit {0})
  after_join (returned _) = pure tt
  after_join thread_panicked = λ x. (panicked, x)

abbrev pub at : QuicError → String → Option String → String → PeerNetErrorData
at kind location message text = new (wrap_quic kind) location text message

module _ {os : Os} {PeerId : Type 0} where
  unfoldable pub start_listener : SocketAddr → Act (On os PeerId) (Unit {0})
  unfolding or_error or_panic or_error_with
  start_listener address = do
    check (at QuicError.init_listener "init poll" none) os.poll_new
    made ← ask os.waker_new
    waker ← or_error_with (at QuicError.init_listener "init waker" none) made
    server ← unwrap (os.bind_udp address)
    check (at QuicError.init_listener "server set nonblocking" none) (os.udp_blocking server)
    check (at QuicError.quiche_config "new from protocol" (some os.show_version)) os.quiche_config
    check (at QuicError.quiche_config "load_cert_chain" none) os.load_cert_chain
    check (at QuicError.quiche_config "load_priv_key" none) os.load_priv_key
    check (at QuicError.quiche_config "cfg set_protocol" none) os.set_application_protos
    served ← unwrap (os.clone_udp server)
    handle ← unwrap os.spawn
    modify (λ x. record x {
      shared =
          on_active
            (λ active. record active {
              listeners = insert address TransportType.quic active.listeners;
            })
            x.shared;
    })
    socket ← unwrap (os.clone_udp server)
    modify (λ x. record x {
      transport = record x.transport {
        listeners = insert address (waker, (socket, handle)) x.transport.listeners;
      };
    })

  stop_found : SocketAddr → Option (ℕ × (ℕ × ℕ)) → Act (On os PeerId) (Unit {0})
  unfolding or_error after_join
  stop_found address none = λ x. (
    err (
        error (wrap_quic QuicError.internal_fail) "stop_listener rm addr"
          (some (os.show_address address))),
    x,
  )
  stop_found address (some (waker, (socket, handle))) = do
    modify (λ x. record {
      transport = record x.transport { listeners = remove address x.transport.listeners };
      shared =
          on_active (λ active. record active { listeners = remove address active.listeners })
            x.shared;
    })
    check (at QuicError.stop_listener "waker wake" none) (os.wake waker)
    ended ← ask (os.join handle)
    after_join ended

  unfoldable pub stop_listener : SocketAddr → Act (On os PeerId) (Unit {0})
  unfolding stop_found
  stop_listener address x = stop_found address (lookup address x.transport.listeners) x

  -- A listener at the local address is started where there is none, and given 100 ms.
  with_listener : SocketAddr → Bool → Act (On os PeerId) (Unit {0})
  with_listener local_addr true = pure tt
  with_listener local_addr false = do
    start_listener local_addr
    modify (λ x. record x {
      shared = record x.shared { world = change (os.sleep 100) x.shared.world };
    })

  found_socket : Option (ℕ × (ℕ × ℕ)) → Act (On os PeerId) ℕ
  found_socket none = λ x. (panicked, x)
  found_socket (some (waker, (socket, handle))) = pure socket

  -- Gives the handle of the thread that connects.
  unfoldable pub try_connect : Act (On os PeerId) ℕ
  unfolding with_listener found_socket or_panic
  try_connect x =
      let local_addr = x.transport.config.connection_config.local_addr in
      (do
        with_listener local_addr (contains_key local_addr x.transport.listeners)
        socket ← λ y. found_socket (lookup local_addr y.transport.listeners) y
        connecting ← unwrap (os.clone_udp socket)
        unwrap os.spawn)
        x
