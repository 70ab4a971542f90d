-- ===== src/Peer/Outcomes.antt =====
-- What the first part of a peer's thread leaves in the table.
use peer_net.Base.{
  ◌<◌, arith, ℕ, ◌≡◌, ◌≢◌, refl, ◌∙◌, ap, ◌⊎◌, inl, inr, String, Option, none, some, Bool, true,
  false, Eq, ◌==◌, Bool-cases, Option-cases, test_refl, test_ne,
}
use peer_net.Base.Dict.{lookup, NodupKeys, lookup-remove}
use peer_net.Address.{addr_eq}
use peer_net.Act.{Outcome, ok, err, panicked, unfinished, taken, ◌>>=◌, ◌>>◌, pure}
use peer_net.Config.Category.{PeerNetCategoryInfo}
use peer_net.Error.{PeerNetErrorData}
use peer_net.Os.{Os}
use peer_net.World.{World}
use peer_net.Endpoint.{Endpoint, get_target_addr}
use peer_net.Endpoint.Dispatch
use peer_net.PeerConnection.{PeerConnection, PeerConnectionType, in_, out, SendChannels}
use peer_net.Connections.{ActiveConnections, Shared, connection_ip, remove_connection}
use peer_net.Connections.Calls.{
  remove_cases, connections-remove_connection, world-remove_connection, confirm_connection_lem,
  closed_world, entry,
}
use peer_net.Connections.Checks.{
  check_addr_accepted_post_handshake_iff, nb_at, nb_in_category, max_of,
}
use peer_net.Peer.{
  Handler, Running, leave_queue, setup, after_handshake, after_clone, admit, if_accepted,
  start_writer, writer_made, bounded,
}
use peer_net.Quic.Listener.{quic_info}
use peer_net.Peer.Setup.{clone_cases, handshake, one_channel, with_left}

-- From the table `s`, the peer `id` was confirmed by a thread of the given type and category, within
-- the limits of that category; `t` has its connection.
pub record IsAdmitted {os : Os} {PeerId : Type 0} ⦃e : Eq PeerId⦄ (handler : Handler os PeerId)
    (kind : PeerConnectionType) (category : Option String) (info : PeerNetCategoryInfo)
    (s : Shared os PeerId) (id : PeerId) (after : ActiveConnections PeerId) : Type 0 where
  pub not_self : id ≢ handler.own
  pub fresh : lookup id s.active.connections ≡ none
  pub connection : PeerConnection
  pub there : lookup id after.connections ≡ some connection
  pub has_type : connection.connection_type ≡ kind
  pub has_category : connection.category_name ≡ category
  pub at_ip : nb_at s.active kind (connection_ip connection) < info.max_in_connections_per_ip
  pub in_category : nb_in_category s.active kind category < max_of kind info

-- What a thread that goes on to its loops has brought about, from the table `s`.
abbrev pub Runs :
    {os : Os} {PeerId : Type 0} ⦃e : Eq PeerId⦄
    → Handler os PeerId
    → PeerConnectionType
    → Option String
    → PeerNetCategoryInfo
    → Shared os PeerId
    → Outcome (Option (Running PeerId))
    → Shared os PeerId
    → Type 0
Runs handler kind category info s (ok (some r)) t =
    IsAdmitted handler kind category info s r.peer_id t.active
Runs handler kind category info s _ t = Unit

connections-leave_queue :
    {PeerId : Type 0} (kind : PeerConnectionType) (endpoint : Endpoint)
    (active : ActiveConnections PeerId)
    → (leave_queue kind endpoint active).connections ≡ active.connections
unfolding leave_queue
connections-leave_queue in_ endpoint active = refl
connections-leave_queue out endpoint active = refl

module _ {os : Os} {PeerId : Type 0} ⦃e : Eq PeerId⦄ (handler : Handler os PeerId)
    (endpoint : Endpoint) (kind : PeerConnectionType) (category : Option String)
    (info : PeerNetCategoryInfo) (s : Shared os PeerId) where
  abbrev Good : Outcome (Option (Running PeerId)) → Shared os PeerId → Type 0
  Good = Runs handler kind category info s

  removal-Runs :
      (t : Shared os PeerId) (id : PeerId)
      → Good
          ((remove_connection id >> pure {A = Option (Running PeerId)} none) t).0
          ((remove_connection id >> pure {A = Option (Running PeerId)} none) t).1
  removal-Runs t id = elim (remove_cases t id) [ inl fine ↦ rw fine tt | inr panic ↦ rw panic tt ]

  if_accepted-Runs :
      (t : Shared os PeerId) (id : PeerId) (low high : ℕ) (b : Bool)
      → (b ≡ true → IsAdmitted handler kind category info s id t.active)
      → Good
          (if_accepted handler endpoint kind category info id low high b t).0
          (if_accepted handler endpoint kind category info id low high b t).1
  unfolding if_accepted start_writer writer_made
  if_accepted-Runs t id low high false h = tt
  if_accepted-Runs t id low high true h = elim (clone_cases endpoint t.world) [
    | inl (c, fine) ↦
        let admitted = h refl in
        rw fine (elim (Option-cases (os.spawn (Dispatch.try_clone endpoint t.world).1.state).0) [
          | inl none_made ↦ rw none_made tt
          | inr (handle, made) ↦ rw made (record {
            not_self = admitted.not_self;
            fresh = admitted.fresh;
            connection = admitted.connection;
            there = admitted.there;
            has_type = admitted.has_type;
            has_category = admitted.has_category;
            at_ip = admitted.at_ip;
            in_category = admitted.in_category;
          })
        ])
    | inr (x, failed) ↦ rw failed (removal-Runs _ id)
  ]

  then_start-Runs :
      (id : PeerId) (low high : ℕ) (o : Outcome Bool) (t : Shared os PeerId)
      → (o ≡ ok true → IsAdmitted handler kind category info s id t.active)
      → Good
          (((λ _. (o, t)) >>= if_accepted handler endpoint kind category info id low high) t).0
          (((λ _. (o, t)) >>= if_accepted handler endpoint kind category info id low high) t).1
  then_start-Runs id low high (ok b) t h = if_accepted-Runs t id low high b (λ p. h (ap ok p))
  then_start-Runs id low high (err x) t h = tt
  then_start-Runs id low high panicked t h = tt
  then_start-Runs id low high unfinished t h = tt

  not_true : {o : Outcome Bool} → (o ≡ ok false) ⊎ (o ≡ panicked) → o ≡ ok true → ⊥
  not_true (inl p) h = cc
  not_true (inr p) h = cc

  admit-IsAdmitted :
      (t : Shared os PeerId) (id : PeerId) (c : Endpoint) (channels : SendChannels)
      → t.active.connections ≡ s.active.connections
      → (admit handler endpoint kind category info id c channels t).0 ≡ ok true
      → IsAdmitted handler kind category info s id
          (admit handler endpoint kind category info id c channels t).1.active
  unfolding admit
  admit-IsAdmitted t id c channels same = elim (Bool-cases (id == handler.own)) [
    | inl self ↦ rw self (λ h. cc h)
    | inr other ↦ rw other (elim (confirm_connection_lem t id c channels kind category info) [
      | inl (passed, result, table) ↦ λ _.
          let (new', at_ip, in_category) =
            (check_addr_accepted_post_handshake_iff t.active (get_target_addr c) category info id
                kind).0
              passed in
          record {
            not_self = test_ne id handler.own other;
            fresh = rw same at new';
            connection = entry t id c channels kind category info;
            there = rw (test_refl id) at (table id);
            has_type = refl;
            has_category = refl;
            at_ip = rw same at at_ip;
            in_category = rw same at in_category;
          }
      | inr (_, result, _, _) ↦ λ h. absurd (not_true result h)
    ])
  ]

  after_clone-Runs :
      (t : Shared os PeerId) (id : PeerId) (low high : ℕ × ℕ) (o : Outcome Endpoint)
      → t.active.connections ≡ s.active.connections
      → Good
          (after_clone handler endpoint kind category info id low high o t).0
          (after_clone handler endpoint kind category info id low high o t).1
  unfolding after_clone
  after_clone-Runs t id (low_tx, low_rx) (high_tx, high_rx) (ok c) same =
      let channels : SendChannels = record { low_priority = low_tx; high_priority = high_tx } in
      let u = with_left handler endpoint kind category info t in
      then_start-Runs id low_rx high_rx _ _
        (admit-IsAdmitted u id c channels (connections-leave_queue kind endpoint t.active ∙ same))
  after_clone-Runs t id low high (err x) same =
      removal-Runs (with_left handler endpoint kind category info t) id
  after_clone-Runs t id low high panicked same = tt
  after_clone-Runs t id low high unfinished same = tt

  after_handshake-Runs :
      (t : Shared os PeerId) (o : Outcome PeerId)
      → t.active ≡ s.active
      → Good
          (after_handshake handler endpoint kind category info o t).0
          (after_handshake handler endpoint kind category info o t).1
  unfolding after_handshake bounded
  after_handshake-Runs t (ok id) same =
      elim (clone_cases endpoint
        (one_channel handler endpoint kind category info
          (one_channel handler endpoint kind category info t.world).1).1) [
            | inl (c, fine) ↦
                rw fine (after_clone-Runs _ id _ _ (ok c) (ap (λ a. a.connections) same))
            | inr (x, failed) ↦
                rw failed
                  (after_clone-Runs _ id (0, 0) (0, 0) (err x) (ap (λ a. a.connections) same))
          ]
  after_handshake-Runs t (err x) same = tt
  after_handshake-Runs t panicked same = tt
  after_handshake-Runs t unfinished same = tt

  -- A thread goes on to its loops only for a peer that is not this peer itself, that had no
  -- connection before, and that the table now maps to a connection of the thread's type and category;
  -- before it, the connections of this type from the same address, and those in the category, were
  -- fewer than the limits.
  pub setup-Runs :
      Runs handler kind category info s
        (setup handler endpoint kind category info s).0
        (setup handler endpoint kind category info s).1
  unfolding setup
  setup-Runs = go (handshake handler endpoint kind category info s)
    where
      go :
          (r : Outcome PeerId × World os)
          → Good
              (((λ (_ : Shared os PeerId). (taken r.0, record s { world = r.1 }))
                  >>= after_handshake handler endpoint kind category info)
                s).0
              (((λ (_ : Shared os PeerId). (taken r.0, record s { world = r.1 }))
                  >>= after_handshake handler endpoint kind category info)
                s).1
      go (ok id, w) = after_handshake-Runs (record s { world = w }) (ok id) refl
      go (err x, w) = after_handshake-Runs (record s { world = w }) (err x) refl
      go (panicked, w) = tt
      go (unfinished, w) = tt

  -- The world in which the endpoint is cloned for the table, after the handshake.
  abbrev pub clone_world : World os
  clone_world =
      let channel = one_channel handler endpoint kind category info in
      (channel (channel (handshake handler endpoint kind category info s).1).1).1

  -- If the handshake names a peer and the endpoint then cannot be cloned, the peer has no connection
  -- in the table afterwards, even if it had one, which another thread serves; that connection's
  -- endpoint has been shut down.
  pub setup_clone_failed :
      (id : PeerId) (x : PeerNetErrorData) (old : PeerConnection)
      → (handshake handler endpoint kind category info s).0 ≡ ok id
      → (Dispatch.try_clone endpoint clone_world).0 ≡ err x
      → NodupKeys s.active.connections
      → lookup id s.active.connections ≡ some old
      → (lookup id (setup handler endpoint kind category info s).1.active.connections ≡ none)
        × ((setup handler endpoint kind category info s).1.world
            ≡ (Dispatch.shutdown old.endpoint (Dispatch.try_clone endpoint clone_world).1).1)
  unfolding setup after_handshake bounded after_clone
  setup_clone_failed id x old named failed distinct had =
      let t : Shared os PeerId = record {
        active = leave_queue kind endpoint s.active;
        world = (Dispatch.try_clone endpoint clone_world).1;
      } in
      let kept = connections-leave_queue kind endpoint s.active in
      let without = lookup-remove id id t.active.connections (rw kept distinct) in
      let gone =
        ap (lookup id) (connections-remove_connection t id) ∙ (rw (test_refl id) at without) in
      let world = world-remove_connection t id in
      let shut = world ∙ ap (closed_world t id) (ap (lookup id) kept ∙ had) in
      rw named (
        rw failed (elim (remove_cases t id) [
          | inl fine ↦ rw fine (gone, shut)
          | inr panic ↦ rw panic (gone, shut)
        ]))

-- With the limits that every peer of QUIC gets, which are all 0, no thread goes on to its loops: it
-- ends without a peer, fails, panics, or does not come back from the handshake.
pub setup-ne-some :
    {os : Os} {PeerId : Type 0} ⦃e : Eq PeerId⦄ (handler : Handler os PeerId) (endpoint : Endpoint)
    (kind : PeerConnectionType) (category : Option String) (s : Shared os PeerId)
    (r : Running PeerId)
    → (setup handler endpoint kind category quic_info s).0 ≢ ok (some r)
unfolding quic_info
setup-ne-some handler endpoint kind category s r ran =
    let admitted = rw ran at (setup-Runs handler endpoint kind category quic_info s) in
    absurd (omega (arith, admitted.at_ip))
