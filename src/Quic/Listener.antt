-- ===== src/Quic/Listener.antt =====
-- The thread of a listener in src/transports/quic.rs. It shares the map of connections with the other
-- listeners of its transport. The threads of peers that it starts are a list of their endpoints.
pub mod Kept
pub mod Lasting
use peer_net.Base.{
  ℕ, String, Option, none, some, Bool, true, false, List, [], ◌∷◌, ◌++◌, ◌==◌, ◌⊎◌, inl, inr, not,
  if◌then◌else◌,
}
use peer_net.Base.Dict.{Dict, lookup, insert, contains_key}
use peer_net.Address.{SocketAddr, addr_eq}
use peer_net.Error.{new, wrap_quic, QuicError}
use peer_net.Act.{Outcome, ok, err, panicked, unfinished, Act, pure, modify, ◌>>=◌, ◌>>◌}
use peer_net.Config.Category.{PeerNetCategoryInfo}
use peer_net.Os.{Os}
use peer_net.World.{World, call, new_counter}
use peer_net.Loop.{Step, stop, again, repeat}
use peer_net.Endpoint.{QuicEndpoint}
use peer_net.Mio.{Token, readable, stop_listener, unknown_token}
use peer_net.Quic.Quiche.{Quiche, Packet, packet, nothing_left, recv_failed, Header}
use peer_net.Quic.Connection.{QuicConnection, deliver, refreshed, flush}

pub record Listening (os : Os) : Type 0 where
  pub world : World os
  pub connections : Dict SocketAddr QuicConnection
  -- the endpoint that each new thread of a peer gets, the last one first
  pub started : List QuicEndpoint

-- The category and its limits that every peer of QUIC gets.
abbrev pub quic_category : Option String
quic_category = some "quic"

unfoldable pub quic_info : PeerNetCategoryInfo
quic_info = record {
  max_in_connections_per_ip = 0;
  max_in_connections = 0;
  max_out_connections = 0;
}

-- What the thread has: its address, its poll and socket, the counters of the transport, the channel
-- that stops peers; and the fuel of the inner loops.
pub record Listener : Type 0 where
  pub address : SocketAddr
  pub poll : ℕ
  pub socket : ℕ
  pub total_bytes_received : ℕ
  pub total_bytes_sent : ℕ
  pub stop_peer_tx : ℕ
  pub fuel : ℕ

module _ {os : Os} (q : Quiche os) (l : Listener) where
  -- A call of the world.
  abbrev pub on : {A : Type 0} → Act (World os) A → Act (Listening os) A
  on m x = ((m x.world).0, record x { world = (m x.world).1 })

  abbrev pub asks : {A : Type 0} → (os.State → A × os.State) → Listening os → A × Listening os
  asks f x = ((call f x.world).0, record x { world = (call f x.world).1 })

  -- The endpoint of a new connection, whose address is the listener's own.
  peer_endpoint : ℕ → ℕ → World os → QuicEndpoint × World os
  unfolding new_counter
  peer_endpoint send_tx recv_rx w =
      let (received, w₁) = new_counter w in
      let (sent, w₂) = new_counter w₁ in
      (
        record {
          data_receiver = recv_rx;
          data_sender = send_tx;
          address = l.address;
          total_bytes_received = l.total_bytes_received;
          total_bytes_sent = l.total_bytes_sent;
          endpoint_bytes_received = received;
          endpoint_bytes_sent = sent;
        },
        w₂,
      )

  -- The channels of an accepted connection, its entry in the map, and the thread of its peer;
  -- `new_peer` panics where that thread cannot be made.
  peer_made : QuicEndpoint → Option ℕ × Listening os → Outcome (Unit {0}) × Listening os
  peer_made endpoint (none, x) = (panicked, x)
  peer_made endpoint (some handle, x) = (ok tt, record x { started = endpoint ∷ x.started })

  admitted : SocketAddr → ℕ → Act (Listening os) (Unit {0})
  unfolding peer_endpoint peer_made
  admitted from connection x =
      let ((send_tx, send_rx), y) = asks q.bounded_internal x in
      let ((recv_tx, recv_rx), z) = asks q.bounded_internal y in
      let (endpoint, w) = peer_endpoint send_tx recv_rx z.world in
      peer_made endpoint (
        asks os.spawn (record {
          world = w;
          connections =
              insert from
                (record {
                  connection = connection;
                  send_rx = send_rx;
                  recv_tx = recv_tx;
                  is_established = false;
                })
                z.connections;
          started = z.started;
        }))

  accepted : SocketAddr → (String ⊎ ℕ) × Listening os → Outcome (Unit {0}) × Listening os
  unfolding admitted
  accepted from (inl text, x) = (
    err (
        new (wrap_quic QuicError.connection_error) "accept" text
          (some (q.show_accept l.address from))),
    x,
  )
  accepted from (inr connection, x) = admitted from connection x

  fed :
      QuicConnection → SocketAddr → Option String × Listening os → Outcome (Unit {0}) × Listening os
  fed c from (some text, x) = (
    err (
        new (wrap_quic QuicError.connection_error) "recv" text
          (some (q.show_recv_info from l.address))),
    x,
  )
  fed c from (none, x) = if c.is_established then on (deliver q l.fuel c) x else (ok tt, x)

  -- A packet goes to the connection of the address that it came from.
  feed : List ℕ → SocketAddr → Option QuicConnection → Act (Listening os) (Unit {0})
  unfolding fed
  feed bytes from none x = (panicked, x)
  feed bytes from (some c) x = fed c from (asks (q.recv c.connection bytes from l.address) x)

  feed_from : List ℕ → SocketAddr → Act (Listening os) (Unit {0})
  unfolding feed
  feed_from bytes from x = feed bytes from (lookup from x.connections) x

  -- A packet from a new address opens a connection if it is an initial one, and is dropped otherwise.
  pub handle_parsed : List ℕ → SocketAddr → Option Header → Act (Listening os) (Unit {0})
  unfolding accepted feed_from
  handle_parsed bytes from none x = (panicked, x)
  handle_parsed bytes from (some header) x =
      if contains_key from x.connections
      then feed_from bytes from x
      else if header.is_initial
      then ((λ y. accepted from (asks (q.accept header.scid l.address from) y))
            >> feed_from bytes from)
          x
      else (ok tt, x)

  after_packet : Outcome (Unit {0}) × Listening os → Step (Unit {0}) (Unit {0}) × Listening os
  after_packet (ok _, x) = (again tt, x)
  after_packet (err e, x) = (stop (err e), x)
  after_packet (panicked, x) = (stop panicked, x)
  after_packet (unfinished, x) = (stop unfinished, x)

  handle_packet : Packet × Listening os → Step (Unit {0}) (Unit {0}) × Listening os
  unfolding handle_parsed after_packet
  handle_packet (nothing_left, x) = (stop (ok tt), x)
  handle_packet (recv_failed, x) = (stop panicked, x)
  handle_packet (packet bytes from, x) =
      let r = asks (q.parse_header bytes) x in after_packet (handle_parsed bytes from r.0 r.1)

  packet_round : Unit {0} → Listening os → Step (Unit {0}) (Unit {0}) × Listening os
  unfolding handle_packet
  packet_round _ x = handle_packet (asks (q.recv_from l.socket) x)

  -- `'read: loop`
  read_packets : Act (Listening os) (Unit {0})
  unfolding packet_round
  read_packets = repeat l.fuel packet_round tt

  stopped : Option String × Listening os → Outcome Bool × Listening os
  stopped (none, x) = (ok true, x)
  stopped (some _, x) = (panicked, x)

  -- The events of a poll; true where the listener is to end.
  handle_events : List Token → Act (Listening os) Bool
  unfolding read_packets stopped
  handle_events [] = pure false
  handle_events (readable ∷ tokens) = read_packets >> handle_events tokens
  handle_events (stop_listener ∷ tokens) = λ x. stopped (asks (q.mio.send_stop l.stop_peer_tx) x)
  handle_events (unknown_token ∷ tokens) = λ x. (panicked, x)

  after_flush :
      SocketAddr
      → QuicConnection
      → (World os → (Outcome (Unit {0}) × Dict SocketAddr QuicConnection) × World os)
      → Dict SocketAddr QuicConnection
      → Outcome (Unit {0}) × World os
      → (Outcome (Unit {0}) × Dict SocketAddr QuicConnection) × World os
  after_flush a c others rest (ok _, w) = let r = others w in ((r.0.0, (a, c) ∷ r.0.1), r.1)
  after_flush a c others rest (err e, w) = ((err e, (a, c) ∷ rest), w)
  after_flush a c others rest (panicked, w) = ((panicked, (a, c) ∷ rest), w)
  after_flush a c others rest (unfinished, w) = ((unfinished, (a, c) ∷ rest), w)

  -- The loop over the map, with the map that it leaves. An error ends it.
  flush_all :
      Dict SocketAddr QuicConnection
      → World os
      → (Outcome (Unit {0}) × Dict SocketAddr QuicConnection) × World os
  unfolding after_flush
  flush_all [] w = ((ok tt, []), w)
  flush_all ((a, c) ∷ rest) w =
      let now = refreshed q c w in
      after_flush a now (flush_all rest) rest (flush q l.fuel l.socket a now w)

  after_flushes :
      (Outcome (Unit {0}) × Dict SocketAddr QuicConnection) × World os
      → Listening os
      → Step (Unit {0}) (Unit {0}) × Listening os
  unfolding after_packet
  after_flushes ((o, connections), w) x =
      after_packet (o, record x { world = w; connections = connections })

  after_events : Outcome Bool × Listening os → Step (Unit {0}) (Unit {0}) × Listening os
  unfolding flush_all after_flushes
  after_events (ok true, x) = (stop (ok tt), x)
  after_events (ok false, x) = after_flushes (flush_all x.connections x.world) x
  after_events (err e, x) = (stop (err e), x)
  after_events (panicked, x) = (stop panicked, x)
  after_events (unfinished, x) = (stop unfinished, x)

  polled : Option (List Token) × Listening os → Step (Unit {0}) (Unit {0}) × Listening os
  unfolding handle_events after_events
  polled (none, x) = (stop panicked, x)
  polled (some tokens, x) = after_events (handle_events tokens x)

  listener_round : Unit {0} → Listening os → Step (Unit {0}) (Unit {0}) × Listening os
  unfolding polled
  listener_round _ x = polled (asks (q.mio.poll l.poll) x)

  registered : ℕ → Bool × Listening os → Outcome (Unit {0}) × Listening os
  unfolding listener_round
  registered rounds (false, x) = (panicked, x)
  registered rounds (true, x) = repeat rounds listener_round tt x

  -- The thread, for a number of rounds.
  unfoldable pub listener_thread : ℕ → Act (Listening os) (Unit {0})
  unfolding registered
  listener_thread rounds x = registered rounds (asks (q.mio.register l.socket) x)
