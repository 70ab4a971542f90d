-- ===== src/Quic/Transport/Configs.antt =====
-- The calls on a QUIC transport leave its configuration.
use peer_net.Base.{ℕ, ◌≡◌, String, Option, none, some, ◌⊎◌, inl, inr, Bool, true, false}
use peer_net.Base.Dict.{lookup, insert, contains_key}
use peer_net.Transport.{TransportType}
use peer_net.Connections.{on_active}
use peer_net.Address.{SocketAddr, addr_eq}
use peer_net.Error.{PeerNetErrorData, QuicError}
use peer_net.Act.{Outcome, ok, err, panicked, unfinished, Act, modify, ◌>>=◌}
use peer_net.Config.{QuicTransportConfig}
use peer_net.Os.{Os}
use peer_net.World.{change}
use peer_net.Quic.Transport.{
  On, at, ask, or_error, or_panic, or_error_with, check, unwrap, start_listener, with_listener,
  found_socket, try_connect,
}

module _ (os : Os) (PeerId : Type 0) (config : QuicTransportConfig) where
  abbrev Has : On os PeerId → Type 0
  Has x = x.transport.config ≡ config

  abbrev Leaves : {A : Type 0} → Act (On os PeerId) A → Type 0
  Leaves m = (x : On os PeerId) → Has x → Has (m x).1

  after-Leaves :
      {A B : Type 0} (f : A → Act (On os PeerId) B)
      → ((a : A) → Leaves (f a))
      → (r : Outcome A × On os PeerId) (x : On os PeerId) → Has r.1
      → Has (((λ (_ : On os PeerId). r) >>= f) x).1
  after-Leaves f rest (ok a, y) x has = rest a y has
  after-Leaves f rest (err _, y) x has = has
  after-Leaves f rest (panicked, y) x has = has
  after-Leaves f rest (unfinished, y) x has = has

  bind-Leaves :
      {A B : Type 0} (m : Act (On os PeerId) A) (f : A → Act (On os PeerId) B)
      → Leaves m
      → ((a : A) → Leaves (f a))
      → Leaves (m >>= f)
  bind-Leaves m f first rest x has = after-Leaves f rest (m x) x (first x has)

  or_error-Leaves :
      (wrap : String → PeerNetErrorData) (o : Option String) → Leaves (or_error wrap o)
  unfolding or_error
  or_error-Leaves wrap none x has = has
  or_error-Leaves wrap (some text) x has = has

  check-Leaves :
      (wrap : String → PeerNetErrorData) (f : os.State → Option String × os.State)
      → Leaves (check wrap f)
  check-Leaves wrap f x has =
      bind-Leaves (ask f) (or_error wrap) (λ x has. has) (or_error-Leaves wrap) x has

  or_panic-Leaves : {A : Type 0} (o : Option A) → Leaves (or_panic o)
  unfolding or_panic
  or_panic-Leaves none x has = has
  or_panic-Leaves (some a) x has = has

  unwrap-Leaves : {A : Type 0} (f : os.State → Option A × os.State) → Leaves (unwrap f)
  unwrap-Leaves f x has = bind-Leaves (ask f) or_panic (λ x has. has) or_panic-Leaves x has

  or_error_with-Leaves :
      {A : Type 0} (wrap : String → PeerNetErrorData) (o : String ⊎ A)
      → Leaves (or_error_with wrap o)
  unfolding or_error_with
  or_error_with-Leaves wrap (inl text) x has = has
  or_error_with-Leaves wrap (inr a) x has = has

  -- Actions with the proof that they leave the configuration; `then` puts two together.
  abbrev Leaving : Type 0 → Type 0
  Leaving A = (m : Act (On os PeerId) A) × Leaves m

  then : {A B : Type 0} → Leaving A → (A → Leaving B) → Leaving B
  then m f = (m.0 >>= (λ a. (f a).0), bind-Leaves m.0 (λ a. (f a).0) m.1 (λ a. (f a).1))

  asking : {A : Type 0} → (os.State → A × os.State) → Leaving A
  asking f = (ask f, λ x has. has)

  checking :
      QuicError
      → String
      → Option String
      → (os.State → Option String × os.State)
      → Leaving (Unit {0})
  checking kind location message f = (check (at kind location message) f, check-Leaves _ f)

  unwrapping : {A : Type 0} → (os.State → Option A × os.State) → Leaving A
  unwrapping f = (unwrap f, unwrap-Leaves f)

  changing :
      (f : On os PeerId → On os PeerId)
      → ((x : On os PeerId) → Has x → Has (f x))
      → Leaving (Unit {0})
  changing f leaves = (modify f, leaves)

  starting : SocketAddr → Leaving (Unit {0})
  unfolding then asking checking unwrapping changing
  starting address = then (checking QuicError.init_listener "init poll" none os.poll_new) (λ _.
      then (asking os.waker_new) (λ made.
        then
          (
            or_error_with (at QuicError.init_listener "init waker" none) made,
            or_error_with-Leaves _ made,
          )
          (λ waker. then (unwrapping (os.bind_udp address)) (λ server.
            then
              (checking QuicError.init_listener "server set nonblocking" none
                (os.udp_blocking server))
              (λ _.
                then
                  (checking QuicError.quiche_config "new from protocol" (some os.show_version)
                    os.quiche_config)
                  (λ _.
                    then
                      (checking QuicError.quiche_config "load_cert_chain" none os.load_cert_chain)
                      (λ _.
                        then
                          (checking QuicError.quiche_config "load_priv_key" none os.load_priv_key)
                          (λ _.
                            then
                              (checking QuicError.quiche_config "cfg set_protocol" none
                                os.set_application_protos)
                              (λ _. then (unwrapping (os.clone_udp server)) (λ served.
                                then (unwrapping os.spawn) (λ handle.
                                  then
                                    (changing
                                      (λ x. record x {
                                        shared =
                                            on_active
                                              (λ active. record active {
                                                listeners =
                                                    insert address TransportType.quic
                                                      active.listeners;
                                              })
                                              x.shared;
                                      })
                                      (λ x has. has))
                                    (λ _. then (unwrapping (os.clone_udp server)) (λ socket.
                                      changing
                                        (λ x. record x {
                                          transport = record x.transport {
                                            listeners =
                                                insert address (waker, (socket, handle))
                                                  x.transport.listeners;
                                          };
                                        })
                                        (λ x has. has))))))))))))))

  start_listener-Leaves : (address : SocketAddr) → Leaves (start_listener address)
  unfolding starting then asking checking unwrapping changing start_listener
  start_listener-Leaves address = (starting address).1

  with_listener-Leaves : (a : SocketAddr) (b : Bool) → Leaves (with_listener a b)
  unfolding with_listener
  with_listener-Leaves a true x has = has
  with_listener-Leaves a false x has =
      bind-Leaves (start_listener a)
        (λ _. modify (λ y. record y {
          shared = record y.shared { world = change (os.sleep 100) y.shared.world };
        }))
        (start_listener-Leaves a) (λ _ y has'. has') x has

  found_socket-Leaves : (o : Option (ℕ × (ℕ × ℕ))) → Leaves (found_socket o)
  unfolding found_socket
  found_socket-Leaves none x has = has
  found_socket-Leaves (some (waker, (socket, handle))) x has = has

  connecting : SocketAddr → Bool → Leaving ℕ
  unfolding then unwrapping
  connecting local_addr there =
      then (with_listener local_addr there, with_listener-Leaves local_addr there)
        (λ _.
          then
            (
              λ y. found_socket (lookup local_addr y.transport.listeners) y,
              λ y. found_socket-Leaves (lookup local_addr y.transport.listeners) y,
            )
            (λ socket. then (unwrapping (os.clone_udp socket)) (λ connecting. unwrapping os.spawn)))

  pub try_connect-Leaves : Leaves try_connect
  unfolding connecting then unwrapping try_connect
  try_connect-Leaves x has =
      let local_addr = x.transport.config.connection_config.local_addr in
      (connecting local_addr (contains_key local_addr x.transport.listeners)).1 x has
