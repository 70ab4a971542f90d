-- ===== src/Manager/Configured.antt =====
-- The transports of a manager have the manager's configuration.
use mathlib.Core.Path.{subst}
use peer_net.Base.{
  sym, ℕ, ◌≡◌, refl, inl, inr, Option, none, some, List, [], ◌∷◌, ◌==◌, Bool-cases, Option-cases,
  test_eq,
}
use peer_net.Base.Dict.{lookup, insert, lookup-insert}
use peer_net.Address.{SocketAddr}
use peer_net.Act.{Outcome, ok, err, panicked, unfinished}
use peer_net.Config.{PeerNetConfiguration, TcpTransportConfig}
use peer_net.Os.{Os}
use peer_net.World.{World}
use peer_net.Transport.{TransportType, transport_type_eq}
use peer_net.Connections.{Shared}
use peer_net.Tcp
use peer_net.Tcp.Transport.{TcpTransport, With}
use peer_net.Tcp.Transport.Configs.{config-start_listener, config-stop_listener, config-try_connect}
use peer_net.InternalTransport
use peer_net.InternalTransport.{InternalTransport, from_transport_type}
use peer_net.Manager.{
  tcp_config, Manager, transport_config, new, made, found, entry, on_entry, start_listener,
  stop_listener, try_connect,
}

module _ {Ctx : Type 0} (config : PeerNetConfiguration Ctx) where
  -- The limits, categories and timeouts of a TCP transport are those of the manager's configuration,
  -- and so is what its connections have.
  pub record HasLimits (c : TcpTransportConfig) : Type 0 where
    pub connections : c.max_in_connections ≡ config.max_in_connections
    pub categories : c.peer_categories ≡ config.peers_categories
    pub default_category : c.default_category_info ≡ config.default_category_info
    pub reading : c.read_timeout ≡ config.read_timeout
    pub writing : c.write_timeout ≡ config.write_timeout
    pub message_size : c.connection_config.max_message_size ≡ config.max_message_size
    pub channel_size : c.connection_config.data_channel_size ≡ config.send_data_channel_size
    pub rate : c.connection_config.rate_limit ≡ config.rate_limit
    pub rate_window : c.connection_config.rate_time_window ≡ config.rate_time_window
    pub rate_bucket : c.connection_config.rate_bucket_size ≡ config.rate_bucket_size
    pub read_in : c.connection_config.read_timeout ≡ config.read_timeout
    pub write_in : c.connection_config.write_timeout ≡ config.write_timeout

  tcp_config-HasLimits : HasLimits (tcp_config config)
  unfolding tcp_config
  tcp_config-HasLimits = record {
    connections = refl;
    categories = refl;
    default_category = refl;
    reading = refl;
    writing = refl;
    message_size = refl;
    channel_size = refl;
    rate = refl;
    rate_window = refl;
    rate_bucket = refl;
    read_in = refl;
    write_in = refl;
  }

  -- A transport of the given type; one of TCP has the limits and timeouts of the manager.
  abbrev pub Fits : TransportType → InternalTransport → Type 0
  Fits TransportType.tcp (InternalTransport.tcp t) = HasLimits t.config
  Fits TransportType.quic (InternalTransport.quic t) = Unit
  Fits _ _ = ⊥

  abbrev pub FitsIfThere : TransportType → Option InternalTransport → Type 0
  FitsIfThere kind none = Unit
  FitsIfThere kind (some t) = Fits kind t

module _ {Ctx : Type 0} (config : PeerNetConfiguration Ctx) (os : Os) (PeerId : Type 0) where
  -- A call that leaves the configuration of a TCP transport.
  Leaves :
      {A : Type 0}
      → (InternalTransport → Shared os PeerId → Outcome A × With InternalTransport os PeerId)
      → Type 0
  Leaves call_of =
      (kind : TransportType) (t : InternalTransport) (s : Shared os PeerId)
      → Fits config kind t
      → Fits config kind (call_of t s).1.transport

  start-Leaves : (address : SocketAddr) → Leaves (InternalTransport.start_listener address)
  unfolding Leaves InternalTransport.start_listener
  start-Leaves address TransportType.tcp (InternalTransport.tcp t) s fit =
      subst (HasLimits config)
        (sym (config-start_listener (record { transport = t; shared = s }) address)) fit
  start-Leaves address TransportType.quic (InternalTransport.quic t) s fit = tt
  start-Leaves address TransportType.tcp (InternalTransport.quic t) s fit = elim fit [ ]
  start-Leaves address TransportType.quic (InternalTransport.tcp t) s fit = elim fit [ ]

  stop-Leaves : (address : SocketAddr) → Leaves (InternalTransport.stop_listener address)
  unfolding Leaves InternalTransport.stop_listener
  stop-Leaves address TransportType.tcp (InternalTransport.tcp t) s fit =
      subst (HasLimits config)
        (sym (config-stop_listener (record { transport = t; shared = s }) address)) fit
  stop-Leaves address TransportType.quic (InternalTransport.quic t) s fit = tt
  stop-Leaves address TransportType.tcp (InternalTransport.quic t) s fit = elim fit [ ]
  stop-Leaves address TransportType.quic (InternalTransport.tcp t) s fit = elim fit [ ]

  connect-Leaves : Leaves InternalTransport.try_connect
  unfolding Leaves InternalTransport.try_connect
  connect-Leaves TransportType.tcp (InternalTransport.tcp t) s fit =
      subst (HasLimits config) (sym (config-try_connect (record { transport = t; shared = s }))) fit
  connect-Leaves TransportType.quic (InternalTransport.quic t) s fit = tt
  connect-Leaves TransportType.tcp (InternalTransport.quic t) s fit = elim fit [ ]
  connect-Leaves TransportType.quic (InternalTransport.tcp t) s fit = elim fit [ ]

module _ {os : Os} {PeerId Ctx : Type 0} (config : PeerNetConfiguration Ctx) where
  pub record IsConfigured (m : Manager os PeerId Ctx) : Type 0 where
    pub own : m.config ≡ config
    pub fits : (kind : TransportType) → FitsIfThere config kind (lookup kind m.transports)

  -- The transport of an entry, which there always is.
  abbrev Found : TransportType → Outcome InternalTransport × Manager os PeerId Ctx → Type 0
  Found kind (ok t, m) = Fits config kind t × IsConfigured m
  Found kind _ = ⊥

  insert-IsConfigured :
      (kind : TransportType) (t : InternalTransport) (m : Manager os PeerId Ctx)
      (s : Shared os PeerId)
      → Fits config kind t
      → IsConfigured m
      → IsConfigured (record m { shared = s; transports = insert kind t m.transports })
  insert-IsConfigured kind t m s fit is = record {
    own = is.own;
    fits = λ k. rw (lookup-insert k kind t m.transports) (elim (Bool-cases (k == kind)) [
      | inl here ↦ rw here (rw (test_eq k kind here) fit)
      | inr other ↦ rw other (is.fits k)
    ]);
  }

  made-Found :
      (kind : TransportType) (address : SocketAddr) (ends : ℕ × ℕ) (received sent : ℕ)
      (s : Shared os PeerId) (m : Manager os PeerId Ctx)
      → IsConfigured m
      → Found kind (
          made kind
            (record m { shared = s })
            (from_transport_type kind (transport_config m.config kind) address received sent ends))
  unfolding made from_transport_type transport_config Tcp.Transport.new_transport
  made-Found TransportType.tcp address ends received sent s m is =
      let fit =
        subst (λ c. HasLimits config (tcp_config c)) (sym is.own) (tcp_config-HasLimits config) in
      (fit, insert-IsConfigured TransportType.tcp _ m s fit is)
  made-Found TransportType.quic address ends received sent s m is =
      (tt, insert-IsConfigured TransportType.quic _ m s tt is)

  entry-Found :
      (kind : TransportType) (address : SocketAddr) (m : Manager os PeerId Ctx)
      → IsConfigured m
      → Found kind (entry kind address m)
  unfolding entry found
  entry-Found kind address m is = elim (Option-cases (lookup kind m.transports)) [
    | inl missing ↦ rw missing (made-Found kind address _ _ _ _ m is)
    | inr (t, here) ↦ rw here (rw here at (is.fits kind), is)
  ]

  on_entry-IsConfigured :
      {A : Type 0} (kind : TransportType)
      (call_of : InternalTransport
        → Shared os PeerId
        → Outcome A × With InternalTransport os PeerId)
      → Leaves config os PeerId call_of
      → (r : Outcome InternalTransport × Manager os PeerId Ctx) → Found kind r
      → IsConfigured (on_entry kind call_of r).1
  unfolding on_entry Leaves
  on_entry-IsConfigured kind call_of leaves (ok t, m) (fit, is) =
      insert-IsConfigured kind (call_of t m.shared).1.transport m (call_of t m.shared).1.shared
        (leaves kind t m.shared fit) is
  on_entry-IsConfigured kind call_of leaves (err _, m) is = elim is [ ]
  on_entry-IsConfigured kind call_of leaves (panicked, m) is = elim is [ ]
  on_entry-IsConfigured kind call_of leaves (unfinished, m) is = elim is [ ]

-- A call by the program.
pub data Call : Type 0 where
  starts stops connects : TransportType → SocketAddr → Call

module _ {os : Os} {PeerId Ctx : Type 0} where
  perform : Call → Manager os PeerId Ctx → Manager os PeerId Ctx
  perform (starts kind address) m = (start_listener kind address m).1
  perform (stops kind address) m = (stop_listener kind address m).1
  perform (connects kind address) m = (try_connect kind address m).1

  unfoldable pub run : List Call → Manager os PeerId Ctx → Manager os PeerId Ctx
  unfolding perform
  run [] m = m
  run (c ∷ cs) m = run cs (perform c m)

  perform-IsConfigured :
      (config : PeerNetConfiguration Ctx) (c : Call) (m : Manager os PeerId Ctx)
      → IsConfigured config m
      → IsConfigured config (perform c m)
  unfolding perform start_listener stop_listener try_connect
  perform-IsConfigured config (starts kind address) m is =
      on_entry-IsConfigured config kind (InternalTransport.start_listener address)
        (start-Leaves config os PeerId address) (entry kind address m)
        (entry-Found config kind address m is)
  perform-IsConfigured config (stops kind address) m is =
      on_entry-IsConfigured config kind (InternalTransport.stop_listener address)
        (stop-Leaves config os PeerId address) (entry kind address m)
        (entry-Found config kind address m is)
  perform-IsConfigured config (connects kind address) m is =
      on_entry-IsConfigured config kind InternalTransport.try_connect
        (connect-Leaves config os PeerId) (entry kind address m)
        (entry-Found config kind address m is)

  run_from :
      (config : PeerNetConfiguration Ctx) (cs : List Call) (m : Manager os PeerId Ctx)
      → IsConfigured config m
      → IsConfigured config (run cs m)
  unfolding run
  run_from config [] m is = is
  run_from config (c ∷ cs) m is =
      run_from config cs (perform c m) (perform-IsConfigured config c m is)

  -- After any calls on a new manager, those that fail or panic included: it still has its
  -- configuration, each transport is of the type that it is found under, and a TCP transport has the
  -- limits, categories and timeouts of the manager, and its connections the sizes, rates and timeouts.
  pub run-IsConfigured :
      (config : PeerNetConfiguration Ctx) (cs : List Call) (w : World os)
      → IsConfigured config (run cs (new config w))
  unfolding new lookup
  run-IsConfigured config cs w =
      run_from config cs (new config w) (record { own = refl; fits = λ kind. tt })
