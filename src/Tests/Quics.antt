-- ===== src/Tests/Quics.antt =====
-- The listener of QUIC over the test machine.
use peer_net.Base.{ℕ, ◌≢◌, List, [], ◌∷◌, some, true, arith, nat_eq}
use peer_net.Address.{v4_addr, addr_eq, SocketAddr}
use peer_net.Act.{ok}
use peer_net.Endpoint.{tcp}
use peer_net.PeerConnection.{in_}
use peer_net.Peer.{setup}
use peer_net.Peer.Outcomes.{setup-ne-some}
use peer_net.Quic.Connection.{QuicConnection, deliver, forward}
use peer_net.Quic.Connection.Order.{Delivered, deliver-Delivered}
use peer_net.Quic.Connection.Forward.{Forwarded, forward-Forwarded}
use peer_net.Quic.Listener.{Listening, Listener, listener_thread, quic_category, quic_info}
use peer_net.Quic.Listener.Kept.{Ended}
use peer_net.Quic.Listener.Lasting.{listener_thread-Kept}
use peer_net.Tests.Machine.{machine, world}
use peer_net.Tests.QuicMachine.{quiche, quiche-IsOrdered}
use peer_net.Tests.Streams.{endpoint}
use peer_net.Tests.Tables.{start}
use peer_net.Tests.Peers.{handler}

-- It reads packets from socket 1, and sends what comes to channel 2 of the peer.
abbrev listener : Listener
listener = record {
  address = v4_addr 0x7f000001 8080;
  poll = 61;
  socket = 1;
  total_bytes_received = 0;
  total_bytes_sent = 1;
  stop_peer_tx = 62;
  fuel = 5;
}

abbrev connection : QuicConnection
connection = record { connection = 1; send_rx = 2; recv_tx = 3; is_established = true }

-- A connection that takes no packet.
abbrev refusing : QuicConnection
refusing = record connection { connection = 8 }

abbrev peer : SocketAddr
peer = v4_addr 0x7f000001 9

abbrev listening : List ℕ → Listening machine
listening bytes = record { world = world bytes; connections = (peer, refusing) ∷ []; started = [] }

deliver-Delivered_example :
    Delivered quiche quiche-IsOrdered connection
      (world [])
      (deliver quiche 3 connection (world [])).0
      (deliver quiche 3 connection (world [])).1
unfolding nat_eq quiche-IsOrdered
deliver-Delivered_example =
    deliver-Delivered quiche quiche-IsOrdered connection (world []) 3 (omega arith)

forward-Forwarded_example :
    Forwarded quiche quiche-IsOrdered connection
      (world [])
      (forward quiche 3 connection (world [])).0
      (forward quiche 3 connection (world [])).1
forward-Forwarded_example = forward-Forwarded quiche quiche-IsOrdered connection (world []) 3

listener_thread-Kept_example :
    Ended listener
      (listening (1 ∷ 2 ∷ []))
      (listener_thread quiche listener 3 (listening (1 ∷ 2 ∷ []))).0
      (listener_thread quiche listener 3 (listening (1 ∷ 2 ∷ []))).1
listener_thread-Kept_example = listener_thread-Kept quiche listener (listening (1 ∷ 2 ∷ [])) 3

setup-ne-some_example :
    (setup handler (tcp endpoint) in_ quic_category quic_info start).0
    ≢ ok (
        some (record {
          peer_id = 7;
          endpoint = tcp endpoint;
          write_endpoint = tcp endpoint;
          low_write_rx = 4;
          high_write_rx = 5;
        }))
setup-ne-some_example = setup-ne-some handler (tcp endpoint) in_ quic_category start _
