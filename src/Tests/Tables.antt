-- ===== src/Tests/Tables.antt =====
-- The table of connections over the test machine; peers are numbers.
use peer_net.Base.{
  ℕ, ◌≤◌, ◌<◌, ◌≡◌, refl, ◌↔◌, ◌⊎◌, List, [], ◌∷◌, true, false, arith, some, none, nat_eq,
  string_eq, option_eq, ◌==◌, if◌then◌else◌,
}
use peer_net.Base.Dict.{lookup, insert, remove, NodupKeys}
use peer_net.Address.{v4_addr, ip_eq, addr_eq, ip_of, to_canonical}
use peer_net.Act.{ok, panicked}
use peer_net.Config.Category.{PeerNetCategoryInfo}
use peer_net.Endpoint.{tcp, get_target_addr}
use peer_net.Endpoint.Dispatch
use peer_net.PeerConnection.{
  PeerConnection, PeerConnectionType, in_, out, SendChannels, connection_type_eq,
}
use peer_net.Connections.{
  Shared, empty, compute_counters, check_addr_accepted_pre_handshake,
  check_addr_accepted_post_handshake, confirm_connection, remove_connection,
}
use peer_net.Connections.Checks.{
  nb_at, nb_in_category, max_of, check_addr_accepted_pre_handshake_iff,
  check_addr_accepted_post_handshake_iff,
}
use peer_net.Connections.Calls.{
  IsCounted, entry, accepted, confirm_connection_lem, confirm-IsCounted, remove-IsCounted,
}
use peer_net.Connections.Limits.{
  Policy, Follows, IsWithin, Call, confirms, removes, run, run-IsWithin,
}
use peer_net.Tests.Machine.{machine, world}
use peer_net.Tests.Streams.{endpoint}

abbrev pub channels : SendChannels
channels = record { low_priority = 4; high_priority = 5 }

abbrev pub one_each : PeerNetCategoryInfo
one_each = record { max_in_connections = 2; max_in_connections_per_ip = 1; max_out_connections = 2 }

abbrev pub start : Shared machine ℕ
start = record { active = empty; world = world [] }

-- Peer 7 is connected from 127.0.0.1.
abbrev pub one_peer : Shared machine ℕ
one_peer = (confirm_connection 7 (tcp endpoint) channels in_ none one_each start).1

check_addr_accepted_pre_handshake_iff_example :
    (check_addr_accepted_pre_handshake one_peer.active (v4_addr 0x7f000001 9) none one_each ≡ true)
    ↔ ((nb_at one_peer.active in_ (to_canonical (ip_of (v4_addr 0x7f000001 9))) < 1)
        × (nb_in_category one_peer.active in_ none < 2))
check_addr_accepted_pre_handshake_iff_example =
    check_addr_accepted_pre_handshake_iff one_peer.active (v4_addr 0x7f000001 9) none one_each

check_addr_accepted_post_handshake_iff_example :
    (check_addr_accepted_post_handshake one_peer.active (v4_addr 0x7f000001 9) none one_each 8 out
      ≡ true)
    ↔ ((lookup 8 one_peer.active.connections ≡ none)
        × (nb_at one_peer.active out (to_canonical (ip_of (v4_addr 0x7f000001 9))) < 1)
        × (nb_in_category one_peer.active out none < 2))
check_addr_accepted_post_handshake_iff_example =
    check_addr_accepted_post_handshake_iff one_peer.active (v4_addr 0x7f000001 9) none one_each 8
      out

confirm_connection_lem_example :
    ((accepted one_peer 8 (tcp endpoint) channels in_ none one_each ≡ true)
      × ((confirm_connection 8 (tcp endpoint) channels in_ none one_each one_peer).0 ≡ ok true)
      × ((j : ℕ)
          → lookup j
              (confirm_connection 8
                (tcp endpoint)
                channels
                in_
                none
                one_each
                one_peer).1.active.connections
            ≡ (if j == 8
                then some (entry one_peer 8 (tcp endpoint) channels in_ none one_each)
                else lookup j one_peer.active.connections)))
    ⊎ ((accepted one_peer 8 (tcp endpoint) channels in_ none one_each ≡ false)
        × (((confirm_connection 8 (tcp endpoint) channels in_ none one_each one_peer).0 ≡ ok false)
            ⊎ ((confirm_connection 8 (tcp endpoint) channels in_ none one_each one_peer).0
                ≡ panicked))
        × ((confirm_connection 8
              (tcp endpoint)
              channels
              in_
              none
              one_each
              one_peer).1.active.connections
            ≡ one_peer.active.connections)
        × ((confirm_connection 8 (tcp endpoint) channels in_ none one_each one_peer).1.world
            ≡ (Dispatch.shutdown (tcp endpoint) one_peer.world).1))
confirm_connection_lem_example =
    confirm_connection_lem one_peer 8 (tcp endpoint) channels in_ none one_each

confirm-IsCounted_example :
    ((confirm_connection 8 (tcp endpoint) channels in_ none one_each one_peer).0 ≡ panicked)
    ⊎ IsCounted (confirm_connection 8 (tcp endpoint) channels in_ none one_each one_peer).1.active
confirm-IsCounted_example = confirm-IsCounted one_peer 8 (tcp endpoint) channels in_ none one_each

start-IsCounted : IsCounted start.active
unfolding empty
start-IsCounted = record { ins = refl; outs = refl }

remove-IsCounted_example :
    ((remove_connection 7 start).0 ≡ panicked) ⊎ IsCounted (remove_connection 7 start).1.active
remove-IsCounted_example = remove-IsCounted start 7 start-IsCounted

pub one_peer-NodupKeys : NodupKeys one_peer.active.connections
unfolding confirm_connection empty check_addr_accepted_post_handshake get_target_addr ip_of
    to_canonical option_eq ip_eq compute_counters insert lookup
one_peer-NodupKeys = (refl, tt)

abbrev policy : Policy
policy = record { per_ip = λ _. 1; per_category = λ _ _. 2 }

abbrev history : List (Call ℕ)
history =
    confirms 7 (tcp endpoint) channels in_ none one_each
    ∷ confirms 8 (tcp endpoint) channels in_ none one_each
    ∷ removes 7
    ∷ []

two_per_category : (kind : PeerConnectionType) → max_of kind one_each ≤ 2
two_per_category in_ = omega arith
two_per_category out = omega arith

follows : Follows policy (tcp endpoint) none one_each
follows = record { ip_limit = omega arith; category_limit = two_per_category }

start-IsWithin : IsWithin policy start.active
unfolding empty
start-IsWithin = record { at_ip = λ _ _. omega arith; in_category = λ _ _. omega arith }

run-IsWithin_example : IsWithin policy (run history start).active
run-IsWithin_example =
    run-IsWithin policy history start (follows, (follows, (tt, tt))) start-IsWithin

-- The second peer comes from the same address and is refused.
history_ends : (run history start).active.connections ≡ []
unfolding run confirm_connection remove_connection empty check_addr_accepted_post_handshake
    get_target_addr ip_of to_canonical option_eq ip_eq compute_counters insert lookup remove
    Dispatch.shutdown nat_eq
history_ends = refl
