-- ===== src/Endpoint/Dispatch.antt =====
-- The methods of `Endpoint` of src/transports/endpoint.rs, with `TcpEndpoint::try_clone` of
-- src/transports/tcp.rs. `fuel` bounds the loops of the TCP transport.
use peer_net.Base.{ℕ, String, Option, none, some, List, ◌⊎◌, inl, inr}
use peer_net.Error.{new, receive_error, wrap_tcp, TcpError}
use peer_net.Act.{Outcome, ok, err, panicked, unfinished, Act}
use peer_net.Os.{Os}
use peer_net.World.{World, call}
use peer_net.Endpoint.{TcpEndpoint, Endpoint, tcp, quic, mock}
use peer_net.Tcp.Exact
use peer_net.Tcp.Framing
use peer_net.Quic.Channel

module _ {os : Os} where
  abbrev pub cloned : TcpEndpoint → String ⊎ ℕ → World os → Outcome TcpEndpoint × World os
  cloned e (inl text) w =
      (err (new (wrap_tcp TcpError.connection_error) "cannot clone stream" text none), w)
  cloned e (inr stream) w = (ok (record e { stream = stream }), w)

  -- `TcpEndpoint::try_clone`: a new stream over the same socket, and the same counters.
  unfoldable pub clone_tcp : TcpEndpoint → Act (World os) TcpEndpoint
  clone_tcp e w = let r = call (os.clone_stream e.stream) w in cloned e r.0 r.1

  abbrev pub wrap_cloned : Outcome TcpEndpoint × World os → Outcome Endpoint × World os
  wrap_cloned (ok e, w) = (ok (tcp e), w)
  wrap_cloned (err x, w) = (err x, w)
  wrap_cloned (panicked, w) = (panicked, w)
  wrap_cloned (unfinished, w) = (unfinished, w)

  unfoldable pub try_clone : Endpoint → Act (World os) Endpoint
  unfolding clone_tcp
  try_clone (tcp e) w = wrap_cloned (clone_tcp e w)
  try_clone (quic e) w = (ok (quic e), w)
  try_clone (mock sender receiver address) w = (ok (mock sender receiver address), w)

  unfoldable pub shutdown : Endpoint → Act (World os) (Unit {0})
  unfolding Exact.shutdown Channel.shutdown
  shutdown (tcp e) w = (ok tt, Exact.shutdown os e w)
  shutdown (quic e) w = Channel.shutdown e w
  shutdown (mock _ _ _) w = (ok tt, w)

  abbrev mock_sent : Option String → World os → Outcome (Unit {0}) × World os
  mock_sent none w = (ok tt, w)
  mock_sent (some text) w = (err (new receive_error "MockEndpoint" text none), w)

  abbrev mock_received : String ⊎ List ℕ → World os → Outcome (List ℕ) × World os
  mock_received (inl text) w = (err (new receive_error "MockEndpoint" text none), w)
  mock_received (inr bytes) w = (ok bytes, w)

  -- `get_bandwidth`: bytes sent and bytes received.
  unfoldable pub get_bandwidth : Endpoint → World os → ℕ × ℕ
  get_bandwidth (tcp e) w = (w.counters e.endpoint_bytes_sent, w.counters e.endpoint_bytes_received)
  get_bandwidth (quic e) w =
      (w.counters e.endpoint_bytes_sent, w.counters e.endpoint_bytes_received)
  get_bandwidth (mock _ _ _) w = (0, 0)

module _ {os : Os} (fuel : ℕ) where
  unfoldable pub send : Endpoint → List ℕ → Act (World os) (Unit {0})
  send (tcp e) bytes w = Framing.send os fuel e bytes w
  send (quic e) bytes w = Channel.send e bytes w
  send (mock sender _ _) bytes w = let r = call (os.send_bytes sender bytes) w in mock_sent r.0 r.1

  unfoldable pub send_timeout : Endpoint → List ℕ → ℕ → Act (World os) (Unit {0})
  send_timeout (tcp e) bytes timeout w = Framing.send_timeout os fuel e bytes timeout w
  send_timeout (quic e) bytes timeout w = Channel.send_timeout e bytes timeout w
  send_timeout (mock sender _ _) bytes timeout w =
      let r = call (os.send_bytes sender bytes) w in mock_sent r.0 r.1

  unfoldable pub receive : Endpoint → Act (World os) (List ℕ)
  receive (tcp e) w = Framing.receive os fuel e w
  receive (quic e) w = Channel.receive e w
  receive (mock _ receiver _) w = let r = call (os.recv_bytes receiver) w in mock_received r.0 r.1
