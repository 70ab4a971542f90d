-- ===== src/Tests/Transports.antt =====
-- A TCP transport over the test machine; peers are numbers.
use peer_net.Base.{ℕ, ◌≡◌, refl, ◌⊎◌, inl, none, some, List, [], ◌∷◌, nat_eq}
use peer_net.Base.Dict.{lookup}
use peer_net.Address.{SocketAddr, addr_eq, v4_addr}
use peer_net.Error.{error, wrap_tcp, TcpError}
use peer_net.Act.{err}
use peer_net.Connections.{empty}
use peer_net.Tcp.Transport.{On, new_transport, stop_listener, drop_transport, outgoing}
use peer_net.Tcp.Transport.Listeners.{
  IsListed, Stopped, Call, starts, stops, run, stop_listener_lem, run-IsListed,
}
use peer_net.Tcp.Transport.Listeners.Drop.{Dropped, drop_transport-Dropped}
use peer_net.Tcp.Transport.Outgoing.{Left, Stuck, connected_state, outgoing_leaves_queue}
use peer_net.Error.{PeerNetErrorData}
use peer_net.Act.{err}
use peer_net.Tcp.Transport.{connect}
use peer_net.Base.{none, ◌≢◌, ◌⊎◌}
use peer_net.Tests.Machine.{machine}
use peer_net.Tests.Tables.{start}
use peer_net.Tests.Peers.{handler}
use peer_net.Tests.Listeners.{config}

abbrev fresh : On machine ℕ
fresh = record { transport = new_transport config 0 1 (5, 6); shared = start }

abbrev here : SocketAddr
here = v4_addr 0x7f000001 8080

abbrev calls : List Call
calls = starts here ∷ starts (v4_addr 1 2) ∷ stops here ∷ []

fresh-IsListed : IsListed fresh
unfolding new_transport empty lookup
fresh-IsListed = record { own_distinct = tt; distinct = tt; agree = λ a. inl (refl, refl) }

run-IsListed_example : IsListed (run calls fresh)
run-IsListed_example = run-IsListed calls fresh fresh-IsListed

stop_listener_lem_example :
    ((lookup here (run calls fresh).transport.listeners ≡ none)
      × (stop_listener here (run calls fresh) ≡ (
        err (error (wrap_tcp TcpError.stop_listener) "rm addr" (some "an address")),
        run calls fresh,
      )))
    ⊎ ((t : ℕ × ℕ) × (lookup here (run calls fresh).transport.listeners ≡ some t)
        × Stopped here (run calls fresh) (stop_listener here (run calls fresh)))
stop_listener_lem_example = stop_listener_lem here (run calls fresh)

drop_transport-Dropped_example :
    Dropped (drop_transport (run calls fresh)).0 (drop_transport (run calls fresh)).1
drop_transport-Dropped_example = drop_transport-Dropped (run calls fresh) run-IsListed_example

outgoing_leaves_queue_example :
    ((((x : PeerNetErrorData) × ((connect config 0 1 here 50 start).0 ≡ err x))
        ⊎ ((machine.spawn (connected_state handler config 0 1 here 50 start)).0 ≢ none))
      × Left handler config 0 1 here start (outgoing handler config 0 1 here 50 start))
    ⊎ (((machine.spawn (connected_state handler config 0 1 here 50 start)).0 ≡ none)
        × Stuck handler config 0 1 here start (outgoing handler config 0 1 here 50 start))
outgoing_leaves_queue_example =
    outgoing_leaves_queue handler config 0 1 here start 50 (λ _ _ _. inl (7, refl))
