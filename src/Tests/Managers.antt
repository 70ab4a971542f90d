-- ===== src/Tests/Managers.antt =====
-- A manager over the test machine; peers and the program's context are numbers.
use peer_net.Base.{ℕ, ◌≡◌, refl, List, [], ◌∷◌, some}
use peer_net.Base.Dict.{lookup, values}
use peer_net.Address.{v4_addr}
use peer_net.Config.{PeerNetConfiguration, default}
use peer_net.Transport.{TransportType}
use peer_net.Transport.{transport_type_eq}
use peer_net.Quic.Transport.{QuicTransport}
use peer_net.InternalTransport.{InternalTransport}
use peer_net.Manager.{Manager, new, try_connect, drop_manager}
use peer_net.Manager.Addresses.{try_connect_quic_local_addr}
use peer_net.Manager.Drop.{Shut, drop_manager-Shut}
use peer_net.Manager.Configured.{IsConfigured, Call, starts, stops, connects, run, run-IsConfigured}
use peer_net.Tests.Machine.{machine, world}
use peer_net.Base.{length, option_eq, nat_eq, arith}
use peer_net.Base.Dict.{insert}
use peer_net.World.{new_counter}
use peer_net.Address.{ip_of, ip_eq, to_canonical}
use peer_net.Connections.{
  empty, compute_counters, check_addr_accepted_post_handshake, confirm_connection,
}
use peer_net.Endpoint.{TcpEndpoint, get_target_addr}
use peer_net.Manager.{nb_in_connections, get_total_bytes_received, get_total_bytes_sent}
use peer_net.Manager.Totals.{Counted, in_world, totals-Counted}
use peer_net.Tcp.Framing.{send_timeout, receive}
use peer_net.Tests.Machine.{machine-IsStream}
use peer_net.Tests.Streams.{endpoint}
use peer_net.Tests.Tables.{one_peer}

abbrev config : PeerNetConfiguration ℕ
config = default 3

abbrev calls : List Call
calls =
    starts TransportType.tcp (v4_addr 1 2)
    ∷ connects TransportType.quic (v4_addr 3 4)
    ∷ stops TransportType.tcp (v4_addr 1 2)
    ∷ []

run-IsConfigured_example : IsConfigured config (run {PeerId = ℕ} calls (new config (world [])))
run-IsConfigured_example = run-IsConfigured config calls (world [])

abbrev manager : Manager machine ℕ ℕ
manager = new config (world [])

try_connect_quic_local_addr_example :
    (t : QuicTransport) × (lookup TransportType.quic
        (try_connect TransportType.quic (v4_addr 3 4) manager).1.transports
      ≡ some (InternalTransport.quic t))
    × (t.config.connection_config.local_addr ≡ v4_addr 3 4)
unfolding new lookup
try_connect_quic_local_addr_example = try_connect_quic_local_addr manager (v4_addr 3 4) refl

-- Peer 7 is connected over TCP.
abbrev with_peer : Manager machine ℕ ℕ
with_peer = record manager { shared = one_peer }

drop_manager-Shut_example :
    ((drop_manager with_peer).1.shared.active.connections ≡ [])
    × Shut
        (values one_peer.active.connections)
        one_peer.world
        (drop_manager with_peer).0
        (drop_manager with_peer).1.shared.world
drop_manager-Shut_example = drop_manager-Shut with_peer

-- It receives a frame of one byte.
abbrev shared_totals : Manager machine ℕ ℕ
shared_totals = new config (world (0 ∷ 0 ∷ 0 ∷ 1 ∷ 7 ∷ []))

abbrev wired : TcpEndpoint
wired = record endpoint {
  total_bytes_received = shared_totals.total_bytes_received;
  total_bytes_sent = shared_totals.total_bytes_sent;
}

totals-Counted_example :
    Counted
      (λ _. 2)
      (get_total_bytes_sent shared_totals)
      (send_timeout machine 40 wired (7 ∷ 8 ∷ []) 20 shared_totals.shared.world).0
      (get_total_bytes_sent (
        in_world shared_totals
          (send_timeout machine 40 wired (7 ∷ 8 ∷ []) 20 shared_totals.shared.world).1))
    × Counted
        (λ bytes. length bytes)
        (get_total_bytes_received shared_totals)
        (receive machine 40 wired shared_totals.shared.world).0
        (get_total_bytes_received
          (in_world shared_totals (receive machine 40 wired shared_totals.shared.world).1))
unfolding nat_eq new new_counter
totals-Counted_example =
    totals-Counted shared_totals machine-IsStream 40 wired (7 ∷ 8 ∷ []) 20 refl refl refl refl
      (omega arith) (omega arith)

nb_in_with_peer : nb_in_connections with_peer ≡ 1
unfolding nb_in_connections confirm_connection empty check_addr_accepted_post_handshake
    get_target_addr ip_of to_canonical option_eq ip_eq compute_counters insert lookup
nb_in_with_peer = refl
