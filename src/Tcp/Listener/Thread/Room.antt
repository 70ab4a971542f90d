-- ===== src/Tcp/Listener/Thread/Room.antt =====
-- What accepting one connection does to the table.
use peer_net.Base.{
  ℕ, ◌+◌, ◌≤◌, ◌≡◌, refl, ◌∙◌, inl, inr, leb, Bool-cases, arith, set_insert, length-set_insert-le,
  length-set_remove-le,
}
use peer_net.Address.{SocketAddr, addr_eq}
use peer_net.Act.{Outcome, ok, err, panicked, unfinished}
use peer_net.Config.{TcpTransportConfig}
use peer_net.Config.Category.{category_of}
use peer_net.Mio.{Mio, AcceptResult, stream_from, none_waits, accept_failed}
use peer_net.Base.{String, Option, none, some}
use peer_net.World.{World, call}
use peer_net.Endpoint.{Endpoint}
use peer_net.Config.Category.{PeerNetCategoryInfo}
use peer_net.Tcp.Listener.Thread.{peer_made}
use peer_net.Os.{Os}
use peer_net.Loop.{Step, Keeps}
use peer_net.PeerConnection.{connection_type_eq}
use peer_net.Connections.{
  ActiveConnections, Shared, compute_counters, check_addr_accepted_pre_handshake,
}
use peer_net.Peer.{Handler}
use peer_net.Tcp.Listener.{
  total_in_connections, has_room, enter_queue, give_up, Accepted, no_room, refused, started,
  after_fallback, decide, accept_one,
}
use peer_net.Tcp.Listener.Thread.{Serving, Listener, after_accept, handle_accept}

module _ {PeerId : Type 0} (config : TcpTransportConfig) (a : ActiveConnections PeerId) where
  -- From the table `a`, no connection and no outgoing address has changed, and the limit of the
  -- transport is kept.
  pub record Within (b : ActiveConnections PeerId) : Type 0 where
    pub same : b.connections ≡ a.connections
    pub outs : b.out_connection_queue ≡ a.out_connection_queue
    pub room :
        total_in_connections a ≤ config.max_in_connections
        → total_in_connections b ≤ config.max_in_connections

  pub start-Within : Within a
  start-Within = record { same = refl; outs = refl; room = λ h. h }

  -- The address enters the queue.
  queued-Within :
      (address : SocketAddr) (b c : ActiveConnections PeerId)
      → total_in_connections b + 1 ≤ config.max_in_connections
      → Within b
      → c.connections ≡ b.connections
      → c.out_connection_queue ≡ b.out_connection_queue
      → c.in_connection_queue ≡ set_insert address b.in_connection_queue
      → Within c
  queued-Within address b c free within same outs queue = record {
    same = same ∙ within.same;
    outs = outs ∙ within.outs;
    room = λ h.
        rw (same, queue) (omega (arith, free, length-set_insert-le address b.in_connection_queue));
  }

  give_up-Within :
      (address : SocketAddr) (b : ActiveConnections PeerId) → Within b → Within (give_up address b)
  unfolding give_up
  give_up-Within address b within = record {
    same = within.same;
    outs = within.outs;
    room = λ h. omega (arith, within.room h, length-set_remove-le address b.in_connection_queue);
  }

module _ {os : Os} {PeerId : Type 0} (mio : Mio os) (handler : Handler os PeerId) (l : Listener)
    (a : ActiveConnections PeerId) where
  abbrev pub Fine : ActiveConnections PeerId → Type 0
  Fine = Within l.config a

  abbrev FineShared : {A : Type 0} → Outcome A × Shared os PeerId → Type 0
  FineShared r = Fine r.1.active

  after_fallback-Within :
      (address : SocketAddr) (o : Outcome (Unit {0})) (s : Shared os PeerId)
      → Fine s.active
      → FineShared
          (after_fallback handler l.config l.total_bytes_received l.total_bytes_sent address o s)
  unfolding after_fallback
  after_fallback-Within address (ok _) s within = give_up-Within l.config a address s.active within
  after_fallback-Within address (err _) s within = give_up-Within l.config a address s.active within
  after_fallback-Within address panicked s within = within
  after_fallback-Within address unfinished s within = within

  accept_one-Within :
      (stream : ℕ) (address : SocketAddr) (s : Shared os PeerId)
      → Fine s.active
      → FineShared
          (accept_one handler l.config l.total_bytes_received l.total_bytes_sent stream address s)
  unfolding accept_one decide has_room enter_queue compute_counters
  accept_one-Within stream address s within =
      let (category, info) =
        category_of l.config.peer_categories l.config.default_category_info address in
      let queued : ActiveConnections PeerId = record s.active {
        in_connection_queue = set_insert address s.active.in_connection_queue;
      } in
      elim (Bool-cases (leb l.config.max_in_connections (total_in_connections s.active))) [
        | inl full ↦ rw full within
        | inr room ↦
            elim (Bool-cases (check_addr_accepted_pre_handshake queued address category info)) [
              | inl passed ↦
                  rw (room, passed)
                    (queued-Within l.config a address s.active (compute_counters queued)
                      (ground (arith, room)) within refl refl refl)
              | inr turned_away ↦
                  rw (room, turned_away)
                    (after_fallback-Within address _ _ (
                      queued-Within l.config a address s.active queued (ground (arith, room)) within
                        refl refl refl))
            ]
      ]

  abbrev pub FineStep : Step (Unit {0}) (Unit {0}) × Serving os PeerId → Type 0
  FineStep r = Keeps (λ _ x. Fine x.shared.active) (λ _ x. Fine x.shared.active) r.0 r.1

  peer_made-Within :
      (peer : Endpoint × (Option String × PeerNetCategoryInfo)) (r : Option ℕ × World os)
      (s : Shared os PeerId) (x : Serving os PeerId)
      → Fine s.active
      → FineStep (peer_made mio handler l peer r s x)
  unfolding peer_made
  peer_made-Within peer (none, w) s x within = within
  peer_made-Within peer (some _, w) s x within = within

  after_accept-Within :
      (r : Outcome Accepted × Shared os PeerId) (x : Serving os PeerId)
      → FineShared r
      → FineStep (after_accept mio handler l r x)
  unfolding after_accept
  after_accept-Within (ok no_room, s) x within = within
  after_accept-Within (ok refused, s) x within = within
  after_accept-Within (ok (started endpoint category info), s) x within =
      peer_made-Within (endpoint, (category, info)) (call os.spawn s.world) s x within
  after_accept-Within (err _, s) x within = within
  after_accept-Within (panicked, s) x within = within
  after_accept-Within (unfinished, s) x within = within

  pub handle_accept-Within :
      (r : AcceptResult × Serving os PeerId)
      → Fine r.1.shared.active
      → FineStep (handle_accept mio handler l r)
  unfolding handle_accept
  handle_accept-Within (stream_from stream address, x) within =
      after_accept-Within _ x (accept_one-Within stream address _ within)
  handle_accept-Within (none_waits, x) within = within
  handle_accept-Within (accept_failed _, x) within = within
