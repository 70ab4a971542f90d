-- ===== src/Peer/Setup.antt =====
-- Every way out of the first part of a peer's thread.
use peer_net.Base.{
  ℕ, ◌≡◌, refl, ◌∙◌, ◌⊎◌, inl, inr, String, Option, none, Bool, true, false, Eq, ◌==◌, Bool-cases,
  Option-cases,
}
use peer_net.Address.{addr_eq}
use peer_net.Act.{Outcome, ok, err, panicked, unfinished, ◌>>=◌, ◌>>◌, pure}
use peer_net.Config.Category.{PeerNetCategoryInfo}
use peer_net.Error.{PeerNetErrorData}
use peer_net.Os.{Os}
use peer_net.World.{World, call}
use peer_net.Endpoint.{TcpEndpoint, Endpoint, tcp, quic, mock, get_data_channel_size}
use peer_net.Endpoint.Dispatch
use peer_net.PeerConnection.{PeerConnectionType, SendChannels}
use peer_net.Connections.{ActiveConnections, Shared, on_active, compute_counters, remove_connection}
use peer_net.Connections.Calls.{SameQueues, confirm-SameQueues, remove-SameQueues, remove_cases}
use peer_net.Peer.{
  Handler, Running, leave_queue, setup, after_handshake, after_clone, admit, if_accepted,
  start_writer, writer_made, bounded,
}

cloned_cases :
    {os : Os} (e : TcpEndpoint) (r : String ⊎ ℕ) (w : World os)
    → ((c : Endpoint) × ((Dispatch.wrap_cloned (Dispatch.cloned e r w)).0 ≡ ok c))
      ⊎ ((x : PeerNetErrorData) × ((Dispatch.wrap_cloned (Dispatch.cloned e r w)).0 ≡ err x))
cloned_cases e (inl text) w = inr (_, refl)
cloned_cases e (inr stream) w = inl (_, refl)

-- Cloning an endpoint succeeds or fails, and does not panic.
pub clone_cases :
    {os : Os} (endpoint : Endpoint) (w : World os)
    → ((c : Endpoint) × ((Dispatch.try_clone endpoint w).0 ≡ ok c))
      ⊎ ((x : PeerNetErrorData) × ((Dispatch.try_clone endpoint w).0 ≡ err x))
unfolding Dispatch.try_clone
clone_cases {os} (tcp e) w = cloned_cases e (os.clone_stream e.stream w.state).0 _
clone_cases (quic e) w = inl (quic e, refl)
clone_cases (mock a b c) w = inl (mock a b c, refl)

module _ {PeerId : Type 0} (a b c : ActiveConnections PeerId) where
  SameQueues-trans : SameQueues a b → SameQueues b c → SameQueues a c
  SameQueues-trans p q = (p.0 ∙ q.0, p.1 ∙ q.1)

module _ {os : Os} {PeerId : Type 0} ⦃e : Eq PeerId⦄ (handler : Handler os PeerId)
    (endpoint : Endpoint) (kind : PeerConnectionType) (category : Option String)
    (info : PeerNetCategoryInfo) where
  removal-SameQueues :
      (t : Shared os PeerId) (id : PeerId)
      → SameQueues
          ((remove_connection id >> pure {A = Option (Running PeerId)} none) t).1.active
          t.active
  removal-SameQueues t id = elim (remove_cases t id) [
    | inl fine ↦ rw fine (remove-SameQueues t id)
    | inr panic ↦ rw panic (remove-SameQueues t id)
  ]

  if_accepted-SameQueues :
      (t : Shared os PeerId) (id : PeerId) (low high : ℕ) (b : Bool)
      → SameQueues
          (if_accepted handler endpoint kind category info id low high b t).1.active
          t.active
  unfolding if_accepted start_writer writer_made
  if_accepted-SameQueues t id low high false = (refl, refl)
  if_accepted-SameQueues t id low high true = elim (clone_cases endpoint t.world) [
    | inl (c, fine) ↦
        rw fine (elim (Option-cases (os.spawn (Dispatch.try_clone endpoint t.world).1.state).0) [
          | inl none_made ↦ rw none_made (refl, refl)
          | inr (handle, made) ↦ rw made (refl, refl)
        ])
    | inr (x, failed) ↦ rw failed (removal-SameQueues _ id)
  ]

  admit-SameQueues :
      (t : Shared os PeerId) (id : PeerId) (c : Endpoint) (channels : SendChannels)
      → SameQueues (admit handler endpoint kind category info id c channels t).1.active t.active
  unfolding admit
  admit-SameQueues t id c channels = elim (Bool-cases (id == handler.own)) [
    | inl self ↦ rw self (refl, refl)
    | inr other ↦ rw other (confirm-SameQueues t id c channels kind category info)
  ]

  -- After the admission: the queues stay as they are, whatever the outcome.
  abbrev then_start :
      PeerId
      → ℕ
      → ℕ
      → Outcome Bool
      → Shared os PeerId
      → Outcome (Option (Running PeerId)) × Shared os PeerId
  then_start id low high o t =
      ((λ _. (o, t)) >>= if_accepted handler endpoint kind category info id low high) t

  then_start-SameQueues :
      (id : PeerId) (low high : ℕ) (o : Outcome Bool) (t : Shared os PeerId)
      → SameQueues (then_start id low high o t).1.active t.active
  then_start-SameQueues id low high (ok b) t = if_accepted-SameQueues t id low high b
  then_start-SameQueues id low high (err x) t = (refl, refl)
  then_start-SameQueues id low high panicked t = (refl, refl)
  then_start-SameQueues id low high unfinished t = (refl, refl)

  -- The table without the address of the endpoint on its queue.
  abbrev pub left : Shared os PeerId → ActiveConnections PeerId
  left t = leave_queue kind endpoint t.active

  abbrev pub with_left : Shared os PeerId → Shared os PeerId
  with_left t = on_active (leave_queue kind endpoint) t

  after_clone-SameQueues :
      (t : Shared os PeerId) (id : PeerId) (low high : ℕ × ℕ) (o : Outcome Endpoint)
      → ((c : Endpoint) × (o ≡ ok c)) ⊎ ((x : PeerNetErrorData) × (o ≡ err x))
      → SameQueues
          (after_clone handler endpoint kind category info id low high o t).1.active
          (left t)
  unfolding after_clone
  after_clone-SameQueues t id (low_tx, low_rx) (high_tx, high_rx) o (inl (c, fine)) =
      let channels : SendChannels = record { low_priority = low_tx; high_priority = high_tx } in
      let admitted = admit handler endpoint kind category info id c channels (with_left t) in
      rw fine (
        SameQueues-trans (then_start id low_rx high_rx admitted.0 admitted.1).1.active
          admitted.1.active (left t) (then_start-SameQueues id low_rx high_rx admitted.0 admitted.1)
          (admit-SameQueues (with_left t) id c channels))
  after_clone-SameQueues t id low high o (inr (x, failed)) =
      rw failed (removal-SameQueues (with_left t) id)

  abbrev pub one_channel : World os → (ℕ × ℕ) × World os
  one_channel w = call (os.bounded (get_data_channel_size endpoint)) w

  after_channels-SameQueues :
      (t : Shared os PeerId) (id : PeerId)
      → SameQueues (after_handshake handler endpoint kind category info (ok id) t).1.active (left t)
  unfolding after_handshake bounded
  after_channels-SameQueues t id =
      let low = one_channel t.world in
      let high = one_channel low.1 in
      let u : Shared os PeerId = record t { world = high.1 } in
      elim (clone_cases endpoint u.world) [
        | inl (c, fine) ↦ rw fine (
            after_clone-SameQueues (record u { world = (Dispatch.try_clone endpoint u.world).1 }) id
              low.0 high.0 (ok c) (inl (c, refl)))
        | inr (x, failed) ↦ rw failed (
            after_clone-SameQueues (record u { world = (Dispatch.try_clone endpoint u.world).1 }) id
              low.0 high.0 (err x) (inr (x, refl)))
      ]

  after_handshake-SameQueues :
      (t : Shared os PeerId) (o : Outcome PeerId)
      → ((id : PeerId) × (o ≡ ok id)) ⊎ ((x : PeerNetErrorData) × (o ≡ err x))
      → SameQueues (after_handshake handler endpoint kind category info o t).1.active (left t)
  unfolding after_handshake bounded compute_counters
  after_handshake-SameQueues t o (inl (id, fine)) = rw fine (after_channels-SameQueues t id)
  after_handshake-SameQueues t o (inr (x, failed)) = rw failed (refl, refl)

  abbrev pub handshake : Shared os PeerId → Outcome PeerId × World os
  handshake s = handler.perform_handshake endpoint s.active.listeners s.world

  pub setup-SameQueues :
      (s : Shared os PeerId)
      → ((id : PeerId) × ((handshake s).0 ≡ ok id))
        ⊎ ((x : PeerNetErrorData) × ((handshake s).0 ≡ err x))
      → SameQueues (setup handler endpoint kind category info s).1.active (left s)
  unfolding setup
  setup-SameQueues s (inl (id, fine)) =
      rw fine
        (after_handshake-SameQueues (record s { world = (handshake s).1 }) (ok id) (inl (id, refl)))
  setup-SameQueues s (inr (x, failed)) =
      rw failed
        (after_handshake-SameQueues (record s { world = (handshake s).1 }) (err x) (inr (x, refl)))
