-- ===== src/Quic/Outgoing.antt =====
-- The thread that `try_connect` of src/transports/quic.rs starts. It ends with the endpoint that the
-- thread of the peer is started with. The loop that sends takes fuel, and so does its inner one.
use peer_net.Base.{ℕ, String, Option, none, some, List, ◌⊎◌, inl, inr}
use peer_net.Address.{SocketAddr}
use peer_net.Error.{new, wrap_quic, QuicError}
use peer_net.Act.{Outcome, ok, err, panicked, unfinished, Act, ◌>>◌}
use peer_net.Os.{Os}
use peer_net.World.{World, call, change, new_counter}
use peer_net.Loop.{Step, stop, again, repeat}
use peer_net.Endpoint.{QuicEndpoint}
use peer_net.Quic.Quiche.{
  Quiche, Outgoing, write, done, send_failed, SentTo, sent_to, to_would_block, to_failed,
}

abbrev Round : Os → Type 0
Round os = Step (Unit {0}) (Unit {0}) × World os

-- The addresses, the socket, the counters of the transport, and the fuel.
pub record Attempt : Type 0 where
  pub local_addr : SocketAddr
  pub address : SocketAddr
  pub socket : ℕ
  pub total_bytes_received : ℕ
  pub total_bytes_sent : ℕ
  pub fuel : ℕ

module _ {os : Os} (q : Quiche os) (t : Attempt) where
  sent_packet : SentTo → World os → Round os
  sent_packet sent_to w = (stop (ok tt), w)
  sent_packet (to_would_block text) w = (again tt, w)
  sent_packet (to_failed text) w = (
    stop (
        err
          (new (wrap_quic QuicError.connection_error) "quic try_connect socket.send_to" text none)),
    w,
  )

  packet_round : List ℕ → SocketAddr → Unit {0} → World os → Round os
  unfolding sent_packet
  packet_round bytes to _ w = let r = call (q.send_to t.socket bytes to) w in sent_packet r.0 r.1

  next_packet : Outcome (Unit {0}) × World os → Round os
  next_packet (ok _, w) = (again tt, w)
  next_packet (err e, w) = (stop (err e), w)
  next_packet (panicked, w) = (stop panicked, w)
  next_packet (unfinished, w) = (stop unfinished, w)

  send_one : Outgoing → World os → Round os
  unfolding packet_round next_packet
  send_one (write bytes to) w = next_packet (repeat t.fuel (packet_round bytes to) tt w)
  send_one done w = (stop (ok tt), w)
  send_one (send_failed text) w =
      (stop (err (new (wrap_quic QuicError.connection_error) "try_connect conn.send" text none)), w)

  send_round : ℕ → Unit {0} → World os → Round os
  unfolding send_one
  send_round connection _ w = let r = call (q.send connection) w in send_one r.0 r.1

  -- The endpoint gets one end of each of two channels. The other ends, and the connection, go with the
  -- thread.
  endpoint_of : World os → QuicEndpoint × World os
  unfolding new_counter
  endpoint_of w =
      let ((send_tx, send_rx), w₁) = call q.bounded_internal w in
      let ((recv_tx, recv_rx), w₂) = call q.bounded_internal w₁ in
      let (received, w₃) = new_counter w₂ in
      let (sent, w₄) = new_counter w₃ in
      (
        record {
          data_receiver = recv_rx;
          data_sender = send_tx;
          address = t.address;
          total_bytes_received = t.total_bytes_received;
          total_bytes_sent = t.total_bytes_sent;
          endpoint_bytes_received = received;
          endpoint_bytes_sent = sent;
        },
        change (λ s. q.drop_end recv_tx (q.drop_end send_rx s)) w₄,
      )

  connected : String ⊎ ℕ → Act (World os) QuicEndpoint
  unfolding send_round endpoint_of
  connected (inl text) w = (
    err (
        new (wrap_quic QuicError.connection_error) "try_connect connect" text
          (some (q.show_connect t.local_addr t.address))),
    w,
  )
  connected (inr connection) w =
      (repeat t.fuel (send_round connection) tt >> (λ v. (ok (endpoint_of v).0, (endpoint_of v).1)))
        w

  protocols_set : Option String → Act (World os) QuicEndpoint
  unfolding connected
  protocols_set (some text) w =
      (err (new (wrap_quic QuicError.quiche_config) "cfg proto" text none), w)
  protocols_set none w = let r = call (q.connect t.local_addr t.address) w in connected r.0 r.1

  configured : Option String → Act (World os) QuicEndpoint
  unfolding protocols_set
  configured (some text) w = (panicked, w)
  configured none w = let r = call os.set_application_protos w in protocols_set r.0 r.1

  unfoldable pub connect_thread : Act (World os) QuicEndpoint
  unfolding configured
  connect_thread w = let r = call os.quiche_config w in configured r.0 r.1
