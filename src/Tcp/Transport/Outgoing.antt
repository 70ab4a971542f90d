-- ===== src/Tcp/Transport/Outgoing.antt =====
-- What an outgoing TCP connection does to the queue of outgoing connections.
use peer_net.Base.{
  ℕ, ◌≡◌, refl, ◌∙◌, ◌⊎◌, inl, inr, Option, false, List, Eq, ◌==◌, Bool-cases, contains, set_insert,
  contains-set_insert, contains-set_remove, if◌then◌else◌,
}
use peer_net.Base.Dict.{Dict}
use peer_net.Address.{SocketAddr, addr_eq}
use peer_net.Error.{PeerNetErrorData}
use peer_net.Act.{Outcome, panicked, ok, err}
use peer_net.Config.{TcpTransportConfig}
use peer_net.Config.Category.{category_of}
use peer_net.Os.{Os}
use peer_net.World.{World, call}
use peer_net.Endpoint.{Endpoint, tcp, get_target_addr}
use peer_net.Transport.{TransportType}
use peer_net.PeerConnection.{out}
use peer_net.Connections.{ActiveConnections, Shared}
use peer_net.Peer.{Handler, Running, new_peer}
use mathlib.Core.Option.{some-ne-none}
use peer_net.Base.{ap, none, true, Option-cases, ◌≢◌}
use peer_net.Peer.Queues.{setup_leaves_queue}
use peer_net.Tcp.Listener.{new_endpoint, set_tcp_stream_config}
use peer_net.Tcp.Transport.{connect, after_connect, outgoing}

-- Every handshake comes back, with a peer or with an error.
abbrev pub Returns : {os : Os} {PeerId : Type 0} → Handler os PeerId → Type 0
Returns {os} {PeerId} handler =
    (endpoint : Endpoint) (listeners : Dict SocketAddr TransportType) (w : World os)
    → ((id : PeerId) × ((handler.perform_handshake endpoint listeners w).0 ≡ ok id))
      ⊎ ((x : PeerNetErrorData) × ((handler.perform_handshake endpoint listeners w).0 ≡ err x))

sum_cases : {A B : Type 0} (r : A ⊎ B) → ((a : A) × (r ≡ inl a)) ⊎ ((b : B) × (r ≡ inr b))
sum_cases (inl a) = inl (a, refl)
sum_cases (inr b) = inr (b, refl)

without_inserted :
    (a address : SocketAddr) (q : List SocketAddr)
    → (if a == address then false else contains (set_insert address q) a)
      ≡ (if a == address then false else contains q a)
without_inserted a address q =
    rw (contains-set_insert address a q)
      (elim (Bool-cases (a == address)) [ inl here ↦ rw here refl | inr other ↦ rw other refl ])

module _ {os : Os} {PeerId : Type 0} ⦃e : Eq PeerId⦄ (handler : Handler os PeerId)
    (config : TcpTransportConfig) (total_received total_sent : ℕ) (address : SocketAddr) where
  abbrev pub Result : Type 0
  Result = Outcome (Option (Running PeerId)) × Shared os PeerId

  -- The address is off the queue of outgoing connections, and every other stays as it was.
  abbrev pub Left : Shared os PeerId → Result → Type 0
  Left s r =
      (a : SocketAddr)
      → contains r.1.active.out_connection_queue a
        ≡ (if a == address then false else contains s.active.out_connection_queue a)

  -- The attempt panics with the address on the queue, and every other stays as it was.
  abbrev pub Stuck : Shared os PeerId → Result → Type 0
  Stuck s r =
      (r.0 ≡ panicked)
      × ((a : SocketAddr)
          → contains r.1.active.out_connection_queue a
            ≡ (if a == address then true else contains s.active.out_connection_queue a))

  -- The state in which the thread of the peer is to be made.
  abbrev pub connected_state : ℕ → Shared os PeerId → os.State
  connected_state timeout s =
      (connect config total_received total_sent address timeout s).1.world.state

  module _ (s : Shared os PeerId) where
    abbrev queued : ActiveConnections PeerId
    queued = record s.active {
      out_connection_queue = set_insert address s.active.out_connection_queue;
    }

    -- The thread of the peer of a stream.
    peer_ends :
        (stream : ℕ) (w : World os)
        → Returns handler
        → let made = new_endpoint config total_received total_sent stream address w in
          let info = category_of config.peer_categories config.default_category_info address in
          let t : Shared os PeerId = record { active = queued; world = made.1 } in
          (((os.spawn made.1.state).0 ≢ none)
            × Left s (new_peer handler (tcp made.0) out info.0 info.1 t))
          ⊎ (((os.spawn made.1.state).0 ≡ none)
              × Stuck s (new_peer handler (tcp made.0) out info.0 info.1 t))
    unfolding new_peer new_endpoint get_target_addr
    peer_ends stream w returns =
        let made = new_endpoint config total_received total_sent stream address w in
        let info = category_of config.peer_categories config.default_category_info address in
        elim (Option-cases (os.spawn made.1.state).0) [
          | inl none_made ↦
              rw none_made (
                inr
                  (refl, (refl, λ a. contains-set_insert address a s.active.out_connection_queue)))
          | inr (handle, is_made) ↦
              let v = (call os.spawn made.1).1 in
              let t : Shared os PeerId = record { active = queued; world = v } in
              rw is_made (
                inl (
                  some-ne-none _,
                  λ a.
                      (setup_leaves_queue handler (tcp made.0) out info.0 info.1 t
                          (returns (tcp made.0) queued.listeners v)).0
                        a
                      ∙ without_inserted a address s.active.out_connection_queue,
                ))
        ]

    -- Where every handshake returns: an outgoing connection ends with its address off the queue of
    -- outgoing connections, whether the connection, the handshake or the confirmation fails or not, if
    -- the stream is not connected or the thread of the peer can be made. If the stream is connected
    -- and this thread cannot be made, the attempt panics and the address stays on the queue. Every
    -- other address stays as it was.
    pub outgoing_leaves_queue :
        (timeout : ℕ)
        → Returns handler
        → ((((x : PeerNetErrorData) × ((connect config total_received total_sent address timeout
                    s).0
                  ≡ err x))
              ⊎ ((os.spawn (connected_state timeout s)).0 ≢ none))
            × Left s (outgoing handler config total_received total_sent address timeout s))
          ⊎ (((os.spawn (connected_state timeout s)).0 ≡ none)
              × Stuck s (outgoing handler config total_received total_sent address timeout s))
    unfolding outgoing connect after_connect
    outgoing_leaves_queue timeout returns =
        let (_, w) = call (os.connect_timeout address timeout) s.world in
        elim (sum_cases (os.connect_timeout address timeout s.world.state).0) [
          | inl (text, failed) ↦ rw failed (
              inl (
                inl (_, refl),
                λ a.
                    contains-set_remove address a queued.out_connection_queue
                    ∙ without_inserted a address s.active.out_connection_queue,
              ))
          | inr (stream, fine) ↦
              let same : connected_state timeout s
                  ≡ (new_endpoint config total_received total_sent stream address
                      (set_tcp_stream_config stream config w)).1.state =
                ap
                  (λ t.
                    (after_connect config total_received total_sent address
                      (os.show_attempt address timeout) (t, w) queued).1.world.state)
                  fine in
              rw fine (elim (peer_ends stream (set_tcp_stream_config stream config w) returns) [
                | inl (made, left) ↦ inl (inr (rw same made), left)
                | inr (none_made, stuck) ↦ inr (rw same none_made, stuck)
              ])
        ]
