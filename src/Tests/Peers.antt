-- ===== src/Tests/Peers.antt =====
-- The thread of a peer, and the listener, over the test machine; peers are numbers.
use peer_net.Base.{ℕ, ◌≡◌, refl, inl, none, false, ◌==◌, nat_eq, contains, if◌then◌else◌}
use peer_net.Base.Dict.{lookup, insert}
use peer_net.Address.{SocketAddr, addr_eq}
use peer_net.Act.{ok}
use peer_net.Endpoint.{TcpEndpoint, tcp, get_target_addr}
use peer_net.Endpoint.Dispatch
use peer_net.PeerConnection.{in_}
use peer_net.Connections.{
  empty, compute_counters, check_addr_accepted_post_handshake, confirm_connection,
}
use peer_net.Peer.{Handler, Running, setup}
use peer_net.Peer.Queues.{queue_of, other_type, setup_leaves_queue}
use peer_net.Peer.Outcomes.{Runs, clone_world, setup-Runs, setup_clone_failed}
use peer_net.Peer.Loops.{reader, writer}
use peer_net.Peer.Loops.Ends.{Read, Writes, reader-Read, writer-Writes}
use peer_net.Tests.Machine.{machine}
use peer_net.Tests.Streams.{endpoint}
use peer_net.Tests.Tables.{one_each, start, one_peer, one_peer-NodupKeys}

-- Whoever connects is peer 7; this peer is 0.
abbrev pub handler : Handler machine ℕ
handler = record {
  own = 0;
  perform_handshake = λ _ _ w. (ok 7, w);
  fallback = λ _ _ w. (ok tt, w);
  handle = λ _ _ w. (ok tt, w);
}

setup_leaves_queue_example :
    ((address : SocketAddr)
      → contains
          (queue_of in_ (setup handler (tcp endpoint) in_ none one_each start).1.active)
          address
        ≡ (if address == get_target_addr (tcp endpoint)
            then false
            else contains (queue_of in_ start.active) address))
    × (queue_of (other_type in_) (setup handler (tcp endpoint) in_ none one_each start).1.active
        ≡ queue_of (other_type in_) start.active)
setup_leaves_queue_example =
    setup_leaves_queue handler (tcp endpoint) in_ none one_each start (inl (7, refl))

setup-Runs_example :
    Runs handler in_ none one_each start
      (setup handler (tcp endpoint) in_ none one_each start).0
      (setup handler (tcp endpoint) in_ none one_each start).1
setup-Runs_example = setup-Runs handler (tcp endpoint) in_ none one_each start

-- An endpoint that cannot be cloned.
abbrev stuck : TcpEndpoint
stuck = record endpoint { stream = 8 }

setup_clone_failed_example :
    (lookup 7 (setup handler (tcp stuck) in_ none one_each one_peer).1.active.connections ≡ none)
    × ((setup handler (tcp stuck) in_ none one_each one_peer).1.world
        ≡ (Dispatch.shutdown
            (tcp endpoint)
            (Dispatch.try_clone
              (tcp stuck)
              (clone_world handler (tcp stuck) in_ none one_each one_peer)).1).1)
unfolding Dispatch.try_clone nat_eq lookup confirm_connection check_addr_accepted_post_handshake
    empty compute_counters insert
setup_clone_failed_example =
    setup_clone_failed handler (tcp stuck) in_ none one_each one_peer 7 _ _ refl refl
      one_peer-NodupKeys refl

abbrev running : Running ℕ
running = record {
  peer_id = 7;
  endpoint = tcp endpoint;
  write_endpoint = tcp endpoint;
  low_write_rx = 4;
  high_write_rx = 5;
}

reader-Read_example :
    Read 7 one_peer
      (reader 3 40 handler running one_peer).0
      (reader 3 40 handler running one_peer).1
reader-Read_example = reader-Read running one_peer 3 40 handler one_peer-NodupKeys

writer-Writes_example :
    Writes 7 one_peer (writer 3 40 6 running one_peer).0 (writer 3 40 6 running one_peer).1
writer-Writes_example = writer-Writes running one_peer 3 40 6
