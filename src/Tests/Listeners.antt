-- ===== src/Tests/Listeners.antt =====
-- A TCP listener with room for one connection, over the test machine; peers are numbers.
use peer_net.Base.{ℕ, ◌+◌, ◌≡◌, refl, none, List, [], ◌∷◌, arith, nat_eq, ◌==◌, if◌then◌else◌}
use peer_net.Act.{unfinished}
use peer_net.Mio.{Mio, stream_from, none_waits}
use peer_net.Tcp.Listener.Thread.{Serving, Listener, accept_all, listener_thread}
use peer_net.Tcp.Listener.Thread.Room.{Within}
use peer_net.Tcp.Listener.Thread.Limits.{listener_thread-Within, accept_all_spins}
use peer_net.Tests.QuicMachine.{mio}
use peer_net.Address.{addr_eq, v4_addr}
use peer_net.Config.{TcpTransportConfig}
use peer_net.Endpoint.{tcp}
use peer_net.Connections.{empty}
use peer_net.Tcp.Listener.System.{
  System, idle, Event, accepted, entered, spawned, admitted, run, step, remove_one,
}
use peer_net.Tcp.Listener.{has_room, enter_queue}
use peer_net.Connections.{check_addr_accepted_pre_handshake}
use peer_net.Tcp.Listener.System.Sections.{IsBounded}
use peer_net.Tcp.Listener.System.Bound.{AllNew, run-IsBounded}
use peer_net.Tests.Machine.{machine}
use peer_net.Tests.Streams.{endpoint}
use peer_net.Tests.Tables.{channels, one_each, start}
use peer_net.Tests.Peers.{handler}

abbrev pub config : TcpTransportConfig
config = record {
  max_in_connections = 1;
  connection_config = endpoint.config;
  peer_categories = [];
  default_category_info = one_each;
  read_timeout = 20;
  write_timeout = 20;
}

abbrev system : System machine ℕ
system = record { shared = start; phase = idle; pending = [] }

-- A second connection comes while the first waits for its handshake, which then succeeds.
abbrev schedule : List (Event ℕ)
schedule =
    accepted (v4_addr 1 2)
    ∷ entered
    ∷ spawned
    ∷ accepted (v4_addr 5 6)
    ∷ entered
    ∷ admitted (tcp (record endpoint { address = v4_addr 1 2 })) 7 (tcp endpoint) channels none
        one_each
    ∷ []

system-IsBounded : IsBounded handler config system
unfolding empty
system-IsBounded = record {
  within = omega arith;
  queued = λ b here. here;
  distinct = tt;
  apart = tt;
}

schedule-AllNew : AllNew handler config schedule system
unfolding step empty has_room enter_queue check_addr_accepted_pre_handshake remove_one addr_eq
    nat_eq peer_net.Config.Category.category_of
schedule-AllNew = (refl, (tt, (tt, (refl, (tt, (tt, tt))))))

run-IsBounded_example : IsBounded handler config (run handler config schedule system)
run-IsBounded_example =
    run-IsBounded handler config schedule system schedule-AllNew system-IsBounded

-- Its thread, over a socket that fails each time it accepts.
abbrev listener : Listener
listener = record {
  address = v4_addr 0x7f000001 8080;
  poll = 61;
  config = config;
  total_bytes_received = 0;
  total_bytes_sent = 1;
  peer_stop_tx = 62;
  fuel = 5;
}

abbrev serving : Serving machine ℕ
serving = record { shared = start; peers = [] }

-- A socket at which one stream waits.
abbrev busy : Mio machine
busy = record mio {
  accept = λ h m. (
    (if m.clock == 0 then stream_from 1 (v4_addr 5 6) else none_waits),
    record m { clock = m.clock + 1 },
  );
}

listener_thread-Within_example :
    Within config empty (listener_thread busy handler listener 3 serving).1.shared.active
listener_thread-Within_example = listener_thread-Within busy handler listener 3 serving

accept_all_spins_example : (accept_all mio handler listener 50 60 serving).0 ≡ unfinished
accept_all_spins_example =
    accept_all_spins mio handler listener 60 (λ _. ("too many open files", refl)) 50 serving
