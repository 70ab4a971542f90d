-- ===== src/Tcp/Listener/System.antt =====
-- One TCP listener beside the threads of its peers and of outgoing connections. An event is what one
-- thread does while it holds the lock; a schedule is any sequence of events. An event that the state
-- does not allow changes nothing.
pub mod Places
pub mod Pending
pub mod Sections
pub mod Bound
use peer_net.Base.{
  ℕ, String, Option, none, some, Bool, true, false, List, [], ◌∷◌, Eq, ◌==◌, contains,
  if◌then◌else◌,
}
use peer_net.Base.Dict.{Dict}
use peer_net.Address.{SocketAddr, addr_eq}
use peer_net.Config.{TcpTransportConfig}
use peer_net.Config.Category.{PeerNetCategoryInfo, category_of}
use peer_net.Os.{Os}
use peer_net.Endpoint.{Endpoint, get_target_addr}
use peer_net.PeerConnection.{in_, out, SendChannels}
use peer_net.Transport.{TransportType}
use peer_net.Connections.{ActiveConnections, Shared, on_active, compute_counters, remove_connection}
use peer_net.Peer.{Handler, leave_queue, admit}
use peer_net.Tcp.Listener.{has_room, enter_queue, give_up}

-- Where the listener stands with the connection that it accepted last.
pub data Phase : Type 0 where
  idle : Phase
  -- there was room under the read lock
  checked : SocketAddr → Phase
  -- accepted by the check, and the thread of its peer is to be made
  starting : SocketAddr → Phase
  -- refused by the check, and the fallback runs
  turned_away : SocketAddr → Phase
  -- `new_peer` panicked, and the thread of the listener is gone
  ended : Phase

-- Without the first occurrence.
unfoldable pub remove_one : SocketAddr → List SocketAddr → List SocketAddr
remove_one a [] = []
remove_one a (b ∷ bs) = if b == a then bs else b ∷ remove_one a bs

pub record System (os : Os) (PeerId : Type 0) : Type 0 where
  pub shared : Shared os PeerId
  pub phase : Phase
  -- the addresses of the incoming peers' threads that have not left the queue, one for each thread
  pub pending : List SocketAddr

pub data Event (PeerId : Type 0) : Type 0 where
  accepted : SocketAddr → Event PeerId
  entered : Event PeerId
  -- the thread of a peer is made, or cannot be
  spawned spawn_failed : Event PeerId
  gave_up : Event PeerId
  -- what a pending thread does: its handshake fails, its endpoint cannot be cloned, or it is admitted
  -- with the given clone
  handshake_failed : Endpoint → Event PeerId
  clone_failed : Endpoint → PeerId → Event PeerId
  admitted :
      Endpoint
      → PeerId
      → Endpoint
      → SendChannels
      → Option String
      → PeerNetCategoryInfo
      → Event PeerId
  -- what the loops of any peer do, and the thread of an outgoing connection
  removed : PeerId → Event PeerId
  connected :
      Endpoint
      → PeerId
      → Endpoint
      → SendChannels
      → Option String
      → PeerNetCategoryInfo
      → Event PeerId

module _ {os : Os} {PeerId : Type 0} ⦃e : Eq PeerId⦄ (handler : Handler os PeerId)
    (config : TcpTransportConfig) where
  pub accept_at : SocketAddr → Phase → System os PeerId → System os PeerId
  accept_at address idle x =
      if has_room config x.shared.active then record x { phase = checked address } else x
  accept_at address _ x = x

  after_verdict :
      SocketAddr
      → Option (Dict SocketAddr TransportType) × ActiveConnections PeerId
      → System os PeerId
      → System os PeerId
  after_verdict address (none, active) x = record x {
    shared = record x.shared { active = active };
    phase = starting address;
  }
  after_verdict address (some _, active) x = record x {
    shared = record x.shared { active = active };
    phase = turned_away address;
  }

  pub enter_at : Phase → System os PeerId → System os PeerId
  unfolding after_verdict
  enter_at (checked address) x =
      let (category, info) =
        category_of config.peer_categories config.default_category_info address in
      after_verdict address (enter_queue address category info x.shared.active) x
  enter_at _ x = x

  -- `new_peer`, which panics where the thread cannot be made.
  pub start_at : Bool → Phase → System os PeerId → System os PeerId
  start_at true (starting address) x = record x { phase = idle; pending = address ∷ x.pending }
  start_at false (starting address) x = record x { phase = ended }
  start_at _ _ x = x

  pub give_up_at : Phase → System os PeerId → System os PeerId
  give_up_at (turned_away address) x = record x {
    shared = on_active (give_up address) x.shared;
    phase = idle;
  }
  give_up_at _ x = x

  -- A pending thread leaves the queue, and does the rest under the same lock.
  pub leave : Endpoint → (Shared os PeerId → Shared os PeerId) → System os PeerId → System os PeerId
  leave endpoint rest x =
      if contains x.pending (get_target_addr endpoint)
      then record x {
        shared = rest (on_active (leave_queue in_ endpoint) x.shared);
        pending = remove_one (get_target_addr endpoint) x.pending;
      }
      else x

  unfoldable pub step : Event PeerId → System os PeerId → System os PeerId
  unfolding accept_at enter_at start_at give_up_at leave
  step (accepted address) x = accept_at address x.phase x
  step entered x = enter_at x.phase x
  step spawned x = start_at true x.phase x
  step spawn_failed x = start_at false x.phase x
  step gave_up x = give_up_at x.phase x
  step (handshake_failed endpoint) x = leave endpoint (on_active compute_counters) x
  step (clone_failed endpoint id) x = leave endpoint (λ s. (remove_connection id s).1) x
  step (admitted endpoint id clone channels category info) x =
      leave endpoint (λ s. (admit handler endpoint in_ category info id clone channels s).1) x
  step (removed id) x = record x { shared = (remove_connection id x.shared).1 }
  step (connected endpoint id clone channels category info) x =
      let left = on_active (leave_queue out endpoint) x.shared in
      record x { shared = (admit handler endpoint out category info id clone channels left).1 }

  unfoldable pub run : List (Event PeerId) → System os PeerId → System os PeerId
  unfolding step
  run [] x = x
  run (event ∷ events) x = run events (step event x)
