-- ===== src/Tcp/Listener/System/Bound.antt =====
-- With one listener the incoming connections, with those that wait for their handshake, never exceed
-- the limit of the transport.
use peer_net.Base.{◌≡◌, refl, true, false, List, [], ◌∷◌, Eq, contains, arith}
use peer_net.Address.{addr_eq}
use peer_net.Config.{TcpTransportConfig}
use peer_net.Os.{Os}
use peer_net.PeerConnection.{in_, out, connection_type_eq}
use peer_net.Connections.{on_active, compute_counters, remove_connection}
use peer_net.Connections.Calls.{remove-SameQueues}
use peer_net.Peer.{Handler, leave_queue, admit}
use peer_net.Tcp.Listener.System.{
  spawned, spawn_failed, System, Event, accepted as accepts, entered, gave_up, handshake_failed,
  clone_failed, admitted, removed, connected, step, run,
}
use peer_net.Tcp.Listener.System.Places.{nb_in-remove-le, nb_in-admit-le}
use peer_net.Tcp.Listener.System.Sections.{
  IsBounded, same_queue-IsBounded, leave-IsBounded, accept_at-IsBounded, enter_at-IsBounded,
  start_at-IsBounded, give_up_at-IsBounded,
}

module _ {os : Os} {PeerId : Type 0} ⦃e : Eq PeerId⦄ (handler : Handler os PeerId)
    (config : TcpTransportConfig) where
  -- A connection that the listener accepts is from an address at which no thread is pending.
  abbrev pub IsNew : Event PeerId → System os PeerId → Type 0
  IsNew (accepts address) x = contains x.pending address ≡ false
  IsNew _ x = Unit

  -- Every event of the schedule is so when it happens.
  abbrev pub AllNew : List (Event PeerId) → System os PeerId → Type 0
  AllNew [] x = Unit
  AllNew (event ∷ events) x = IsNew event x × AllNew events (step handler config event x)

  step-IsBounded :
      (event : Event PeerId) (x : System os PeerId)
      → IsNew event x
      → IsBounded handler config x
      → IsBounded handler config (step handler config event x)
  unfolding step leave_queue compute_counters connection_type_eq
  step-IsBounded (accepts address) x fresh bounded =
      accept_at-IsBounded handler config address x x.phase refl fresh bounded
  step-IsBounded entered x fresh bounded = enter_at-IsBounded handler config x x.phase refl bounded
  step-IsBounded spawned x fresh bounded =
      start_at-IsBounded handler config true x x.phase refl bounded
  step-IsBounded spawn_failed x fresh bounded =
      start_at-IsBounded handler config false x x.phase refl bounded
  step-IsBounded gave_up x fresh bounded =
      give_up_at-IsBounded handler config x x.phase refl bounded
  step-IsBounded (handshake_failed endpoint) x fresh bounded =
      leave-IsBounded handler config endpoint (on_active compute_counters) x
        (λ s. (omega arith, refl)) bounded
  step-IsBounded (clone_failed endpoint id) x fresh bounded =
      leave-IsBounded handler config endpoint (λ s. (remove_connection id s).1) x
        (λ s. (omega (arith, nb_in-remove-le s id), (remove-SameQueues s id).0)) bounded
  step-IsBounded (admitted endpoint id clone channels category info) x fresh bounded =
      leave-IsBounded handler config endpoint
        (λ s. (admit handler endpoint in_ category info id clone channels s).1) x
        (λ s.
          let (nb, queues) =
            nb_in-admit-le s handler endpoint in_ category info id clone channels in
          (omega (arith, nb), queues.0))
        bounded
  step-IsBounded (removed id) x fresh bounded =
      same_queue-IsBounded handler config x (remove_connection id x.shared).1
        (nb_in-remove-le x.shared id, (remove-SameQueues x.shared id).0) bounded
  step-IsBounded (connected endpoint id clone channels category info) x fresh bounded =
      let left = on_active (leave_queue out endpoint) x.shared in
      let (nb, queues) = nb_in-admit-le left handler endpoint out category info id clone channels in
      same_queue-IsBounded handler config x
        (admit handler endpoint out category info id clone channels left).1
        (omega (arith, nb), queues.0) bounded

  -- Whatever the schedule of the listener, of the threads of its peers and of outgoing connections, in
  -- which each connection is accepted from an address at which no thread of an incoming peer is still
  -- pending: if at the start each pending thread has an address of its own, which is on the queue, the
  -- listener's address is apart from these, and the incoming connections with the queue are within the
  -- limit of the transport, a place that the listener has checked counted in, then all of this is so at
  -- the end.
  pub run-IsBounded :
      (events : List (Event PeerId)) (x : System os PeerId)
      → AllNew events x
      → IsBounded handler config x
      → IsBounded handler config (run handler config events x)
  unfolding run
  run-IsBounded [] x fresh bounded = bounded
  run-IsBounded (event ∷ events) x (fresh, later) bounded =
      run-IsBounded events (step handler config event x) later
        (step-IsBounded event x fresh bounded)
