-- ===== src/Tcp/Listener/System/Sections.antt =====
-- Each critical section of a TCP listener and of the threads of its peers keeps the bound on the
-- incoming connections.
use peer_net.Base.{
  ◌∙◌, test_eq, test_refl, Bool, ℕ, ◌+◌, ◌≤◌, ◌≡◌, ap, inl, inr, String, Option, true, false, Eq,
  ◌==◌, leb, contains, length, set_insert, Bool-cases, arith, contains-set_insert,
  contains-set_remove, length-set_insert-le, length-set_remove-lt, length-set_remove-le,
  if◌then◌else◌,
}
use peer_net.Address.{SocketAddr, addr_eq}
use peer_net.Config.{TcpTransportConfig}
use peer_net.Config.Category.{PeerNetCategoryInfo, category_of}
use peer_net.Os.{Os}
use peer_net.Endpoint.{Endpoint, get_target_addr}
use peer_net.PeerConnection.{in_, connection_type_eq}
use peer_net.Connections.{Shared, on_active, compute_counters, check_addr_accepted_pre_handshake}
use peer_net.Peer.{Handler, leave_queue}
use peer_net.Tcp.Listener.{total_in_connections, has_room, enter_queue, give_up}
use peer_net.Tcp.Listener.System.{
  Phase, idle, checked, starting, turned_away, ended, start_at, remove_one, System, leave,
  accept_at, enter_at, after_verdict, give_up_at,
}
use peer_net.Tcp.Listener.System.Places.{nb_in}
use peer_net.Tcp.Listener.System.Pending.{
  IsApart, Distinct, contains-remove_one, Distinct-remove_one, leave-IsApart,
}

-- The place that the listener has checked and not yet taken.
abbrev ahead : Phase → ℕ
ahead (checked _) = 1
ahead _ = 0

module _ {os : Os} {PeerId : Type 0} ⦃e : Eq PeerId⦄ (handler : Handler os PeerId)
    (config : TcpTransportConfig) where
  pub record IsBounded (x : System os PeerId) : Type 0 where
    pub within : total_in_connections x.shared.active + ahead x.phase ≤ config.max_in_connections
    -- a pending thread has its address in the queue
    pub queued :
        (b : SocketAddr)
        → contains x.pending b ≡ true
        → contains x.shared.active.in_connection_queue b ≡ true
    pub distinct : Distinct x.pending
    pub apart : IsApart x.phase x.pending x.shared.active.in_connection_queue

  -- A change of the table that takes no place, and leaves the queue.
  abbrev Keeping : Shared os PeerId → Shared os PeerId → Type 0
  Keeping s t =
      (nb_in t.active ≤ nb_in s.active)
      × (t.active.in_connection_queue ≡ s.active.in_connection_queue)

  pub same_queue-IsBounded :
      (x : System os PeerId) (t : Shared os PeerId)
      → Keeping x.shared t
      → IsBounded x
      → IsBounded (record x { shared = t })
  same_queue-IsBounded x t (fewer, queue) bounded = record {
    within = rw (ap length queue) (omega (arith, fewer, bounded.within));
    queued = λ b here. rw queue (bounded.queued b here);
    distinct = bounded.distinct;
    apart = rw queue bounded.apart;
  }

  -- A thread that leaves the queue gives back a place, and may take one.
  pub leave-IsBounded :
      (endpoint : Endpoint) (rest : Shared os PeerId → Shared os PeerId) (x : System os PeerId)
      → ((s : Shared os PeerId)
          → (nb_in (rest s).active ≤ 1 + nb_in s.active)
            × ((rest s).active.in_connection_queue ≡ s.active.in_connection_queue))
      → IsBounded x
      → IsBounded (leave handler config endpoint rest x)
  unfolding leave leave_queue
  leave-IsBounded endpoint rest x takes bounded =
      let address = get_target_addr endpoint in
      let queue = x.shared.active.in_connection_queue in
      let (nb, same) = takes (on_active (leave_queue in_ endpoint) x.shared) in
      elim (Bool-cases (contains x.pending address)) [
        | inl here ↦ rw here (record {
          within = rw (ap length same) (
              omega (
                arith,
                nb,
                bounded.within,
                length-set_remove-lt address queue (bounded.queued address here),
              ));
          queued = λ b still. rw same (
              rw (contains-set_remove address b queue)
                (stays b (rw (contains-remove_one address b x.pending bounded.distinct) at still)));
          distinct = Distinct-remove_one address x.pending bounded.distinct;
          apart =
              rw (ap (IsApart x.phase (remove_one address x.pending)) same)
                (leave-IsApart address x.phase x.pending queue bounded.distinct here bounded.apart);
        })
        | inr gone ↦ rw gone bounded
      ]
    where
      stays :
          (b : SocketAddr)
          → (if b == get_target_addr endpoint then false else contains x.pending b) ≡ true
          → (if b == get_target_addr endpoint
              then false
              else contains x.shared.active.in_connection_queue b)
            ≡ true
      stays b = ground (arith, bounded.queued b)

  pub accept_at-IsBounded :
      (address : SocketAddr) (x : System os PeerId) (phase : Phase)
      → x.phase ≡ phase
      → contains x.pending address ≡ false
      → IsBounded x
      → IsBounded (accept_at handler config address phase x)
  unfolding accept_at has_room
  accept_at-IsBounded address x idle now fresh bounded =
      elim (Bool-cases (leb config.max_in_connections (total_in_connections x.shared.active))) [
        | inl full ↦ rw full bounded
        | inr room ↦ rw room (record {
          within = ground (arith, room);
          queued = bounded.queued;
          distinct = bounded.distinct;
          apart = fresh;
        })
      ]
  accept_at-IsBounded address x (checked _) now fresh bounded = bounded
  accept_at-IsBounded address x (starting _) now fresh bounded = bounded
  accept_at-IsBounded address x (turned_away _) now fresh bounded = bounded
  accept_at-IsBounded address x ended now fresh bounded = bounded

  -- With a free place in the queue, the new address may enter it.
  enter-IsBounded :
      (address : SocketAddr) (category : Option String) (info : PeerNetCategoryInfo)
      (x : System os PeerId)
      → total_in_connections x.shared.active + 1 ≤ config.max_in_connections
      → ((b : SocketAddr)
          → contains x.pending b ≡ true
          → contains x.shared.active.in_connection_queue b ≡ true)
      → Distinct x.pending
      → contains x.pending address ≡ false
      → IsBounded (
          after_verdict handler config address
            (enter_queue address category info x.shared.active)
            x)
  unfolding after_verdict enter_queue compute_counters
  enter-IsBounded address category info x room queued distinct apart =
      let queue = x.shared.active.in_connection_queue in
      let longer = length-set_insert-le address queue in
      let now_queued = contains-set_insert address address queue in
      elim (Bool-cases (
        check_addr_accepted_pre_handshake
          (record x.shared.active { in_connection_queue = set_insert address queue }) address
          category info)) [
            | inl passed ↦ rw passed (record {
              within = omega (arith, room, longer);
              queued = λ b here. rw (contains-set_insert address b queue) (wider b here);
              distinct = distinct;
              apart = (apart, rw (test_refl address) at now_queued);
            })
            | inr refused ↦ rw refused (record {
              within = omega (arith, room, longer);
              queued = λ b here. rw (contains-set_insert address b queue) (wider b here);
              distinct = distinct;
              apart = apart;
            })
          ]
    where
      wider :
          (b : SocketAddr)
          → contains x.pending b ≡ true
          → (if b == address then true else contains x.shared.active.in_connection_queue b) ≡ true
      wider b = ground (arith, queued b)

  pub enter_at-IsBounded :
      (x : System os PeerId) (phase : Phase)
      → x.phase ≡ phase
      → IsBounded x
      → IsBounded (enter_at handler config phase x)
  unfolding enter_at
  enter_at-IsBounded x idle now bounded = bounded
  enter_at-IsBounded x (starting _) now bounded = bounded
  enter_at-IsBounded x ended now bounded = bounded
  enter_at-IsBounded x (turned_away _) now bounded = bounded
  enter_at-IsBounded x (checked address) now bounded =
      let (category, info) =
        category_of config.peer_categories config.default_category_info address in
      enter-IsBounded address category info x (rw now at bounded.within) bounded.queued
        bounded.distinct (rw now at bounded.apart)

  -- The thread of the peer is pending now, or the listener is gone and its address stays on the queue.
  pub start_at-IsBounded :
      (made : Bool) (x : System os PeerId) (phase : Phase)
      → x.phase ≡ phase
      → IsBounded x
      → IsBounded (start_at handler config made phase x)
  unfolding start_at
  start_at-IsBounded true x (starting address) now bounded =
      let (apart, there) = rw now at bounded.apart in
      record {
        within = rw now at bounded.within;
        queued = λ b here. elim (Bool-cases (b == address)) [
          | inl own ↦
              ap (contains x.shared.active.in_connection_queue) (test_eq b address own) ∙ there
          | inr other ↦ bounded.queued b (rw other at here)
        ];
        distinct = (apart, bounded.distinct);
        apart = tt;
      }
  start_at-IsBounded false x (starting address) now bounded = record {
    within = rw now at bounded.within;
    queued = bounded.queued;
    distinct = bounded.distinct;
    apart = tt;
  }
  start_at-IsBounded true x idle now bounded = bounded
  start_at-IsBounded true x (checked _) now bounded = bounded
  start_at-IsBounded true x (turned_away _) now bounded = bounded
  start_at-IsBounded true x ended now bounded = bounded
  start_at-IsBounded false x idle now bounded = bounded
  start_at-IsBounded false x (checked _) now bounded = bounded
  start_at-IsBounded false x (turned_away _) now bounded = bounded
  start_at-IsBounded false x ended now bounded = bounded

  pub give_up_at-IsBounded :
      (x : System os PeerId) (phase : Phase)
      → x.phase ≡ phase
      → IsBounded x
      → IsBounded (give_up_at handler config phase x)
  unfolding give_up_at give_up
  give_up_at-IsBounded x idle now bounded = bounded
  give_up_at-IsBounded x (starting _) now bounded = bounded
  give_up_at-IsBounded x ended now bounded = bounded
  give_up_at-IsBounded x (checked _) now bounded = bounded
  give_up_at-IsBounded x (turned_away address) now bounded =
      let queue = x.shared.active.in_connection_queue in
      record {
        within = omega (arith, bounded.within, length-set_remove-le address queue);
        queued = λ b here. rw (contains-set_remove address b queue) (stays b here);
        distinct = bounded.distinct;
        apart = tt;
      }
    where
      apart : contains x.pending address ≡ false
      apart = rw now at bounded.apart

      stays :
          (b : SocketAddr)
          → contains x.pending b ≡ true
          → (if b == address then false else contains x.shared.active.in_connection_queue b) ≡ true
      stays b = ground (arith, bounded.queued b, apart)
