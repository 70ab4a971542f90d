-- ===== src/Connections/Calls.antt =====
-- What `confirm_connection` and `remove_connection` do, on every branch.
use peer_net.Base.{
  ◌≡◌, refl, ◌⊎◌, inl, inr, String, Option, none, some, Bool, true, false, Eq, ◌==◌, Bool-cases,
  Option-cases, count_if, if◌then◌else◌,
}
use peer_net.Base.Dict.{
  values, lookup, insert, remove, NodupKeys, insert-NodupKeys, lookup-insert, remove_absent,
}
use peer_net.Act.{Outcome, ok, panicked}
use peer_net.Config.Category.{PeerNetCategoryInfo}
use peer_net.Os.{Os, QuicInternalMessage}
use peer_net.World.{World}
use peer_net.Endpoint.{Endpoint, tcp, quic, mock, get_target_addr}
use peer_net.Endpoint.Dispatch
use peer_net.PeerConnection.{
  PeerConnection, PeerConnectionType, in_, out, SendChannels, connection_type_eq,
}
use peer_net.Connections.{
  ActiveConnections, Shared, compute_counters, check_addr_accepted_post_handshake,
  confirm_connection, remove_connection, close_removed,
}

-- The counters say how many connections of each type the table holds.
pub record IsCounted {PeerId : Type 0} (active : ActiveConnections PeerId) : Type 0 where
  pub ins :
      active.nb_in_connections
      ≡ count_if (λ c. c.connection_type == in_) (values active.connections)
  pub outs :
      active.nb_out_connections
      ≡ count_if (λ c. c.connection_type == out) (values active.connections)

pub compute_counters-IsCounted :
    {PeerId : Type 0} (active : ActiveConnections PeerId) → IsCounted (compute_counters active)
unfolding compute_counters
compute_counters-IsCounted active = record { ins = refl; outs = refl }

-- A shutdown goes through, or panics.
pub shutdown_cases :
    {os : Os} (endpoint : Endpoint) (w : World os)
    → ((Dispatch.shutdown endpoint w).0 ≡ ok tt) ⊎ ((Dispatch.shutdown endpoint w).0 ≡ panicked)
unfolding Dispatch.shutdown
shutdown_cases (tcp e) w = inl refl
shutdown_cases {os} (quic e) w =
    elim (Option-cases (os.send_internal e.data_sender QuicInternalMessage.shutdown w.state).0) [
      | inl sent ↦ inl (rw sent)
      | inr (text, failed) ↦ inr (rw failed)
    ]
shutdown_cases (mock _ _ _) w = inl refl

-- The two tables agree on both queues of pending connections.
abbrev pub SameQueues :
    {PeerId : Type 0} → ActiveConnections PeerId → ActiveConnections PeerId → Type 0
SameQueues a b =
    (a.in_connection_queue ≡ b.in_connection_queue)
    × (a.out_connection_queue ≡ b.out_connection_queue)

module _ {os : Os} {PeerId : Type 0} ⦃e : Eq PeerId⦄ (s : Shared os PeerId) where
  module _ (id : PeerId) (endpoint : Endpoint) (channels : SendChannels) (kind : PeerConnectionType)
      (category : Option String) (info : PeerNetCategoryInfo) where
    -- The entry that a confirmation adds.
    abbrev pub entry : PeerConnection
    entry = record {
      send_channels = channels;
      endpoint = endpoint;
      connection_type = kind;
      category_name = category;
    }

    abbrev pub accepted : Bool
    accepted =
        check_addr_accepted_post_handshake s.active (get_target_addr endpoint) category info id kind

    abbrev pub confirmed : Outcome Bool × Shared os PeerId
    confirmed = confirm_connection id endpoint channels kind category info s

    pub confirm_accepted :
        accepted ≡ true
        → (confirmed.0 ≡ ok true)
          × (confirmed.1.active.connections ≡ insert id entry s.active.connections)
          × (confirmed.1.world ≡ s.world)
    unfolding confirm_connection compute_counters
    confirm_accepted yes' = rw yes' (refl, refl, refl)

    pub confirm_refused :
        accepted ≡ false
        → ((confirmed.0 ≡ ok false) ⊎ (confirmed.0 ≡ panicked))
          × (confirmed.1.active.connections ≡ s.active.connections)
          × (confirmed.1.world ≡ (Dispatch.shutdown endpoint s.world).1)
    unfolding confirm_connection compute_counters
    confirm_refused no' = elim (shutdown_cases endpoint s.world) [
      | inl fine ↦ rw (no', fine) (inl refl, refl, refl)
      | inr panic ↦ rw (no', panic) (inr refl, refl, refl)
    ]

    -- A peer is confirmed exactly when the check passes. Then the table maps it to the new connection,
    -- and every other peer to what it had. Otherwise no entry changes, and the endpoint is shut down.
    pub confirm_connection_lem :
        ((accepted ≡ true)
          × (confirmed.0 ≡ ok true)
          × ((j : PeerId)
              → lookup j confirmed.1.active.connections
                ≡ (if j == id then some entry else lookup j s.active.connections)))
        ⊎ ((accepted ≡ false)
            × ((confirmed.0 ≡ ok false) ⊎ (confirmed.0 ≡ panicked))
            × (confirmed.1.active.connections ≡ s.active.connections)
            × (confirmed.1.world ≡ (Dispatch.shutdown endpoint s.world).1))
    confirm_connection_lem = elim (Bool-cases accepted) [
      | inl yes' ↦
          let (result, table, _) = confirm_accepted yes' in
          inl (yes', result, λ j. rw table (lookup-insert j id entry s.active.connections))
      | inr no' ↦
          let (result, table, world) = confirm_refused no' in inr (no', result, table, world)
    ]

    pub confirm-SameQueues : SameQueues confirmed.1.active s.active
    unfolding confirm_connection compute_counters
    confirm-SameQueues = elim (Bool-cases accepted) [
      | inl yes' ↦ rw yes' (refl, refl)
      | inr no' ↦ elim (shutdown_cases endpoint s.world) [
        | inl fine ↦ rw (no', fine) (refl, refl)
        | inr panic ↦ rw (no', panic) (refl, refl)
      ]
    ]

    pub confirm-NodupKeys :
        NodupKeys s.active.connections → NodupKeys confirmed.1.active.connections
    confirm-NodupKeys u = elim (Bool-cases accepted) [
      | inl yes' ↦ rw (confirm_accepted yes').1 (insert-NodupKeys id entry s.active.connections u)
      | inr no' ↦ rw (confirm_refused no').1 u
    ]

    -- Whatever the counters were, they are exact after a call that did not panic.
    pub confirm-IsCounted : (confirmed.0 ≡ panicked) ⊎ IsCounted confirmed.1.active
    unfolding confirm_connection compute_counters
    confirm-IsCounted = elim (Bool-cases accepted) [
      | inl yes' ↦ inr (rw yes' (record { ins = refl; outs = refl }))
      | inr no' ↦ elim (shutdown_cases endpoint s.world) [
        | inl fine ↦ inr (rw (no', fine) (record { ins = refl; outs = refl }))
        | inr panic ↦ inl (rw (no', panic))
      ]
    ]

  module _ (id : PeerId) where
    abbrev pub removed : Outcome (Unit {0}) × Shared os PeerId
    removed = remove_connection id s

    pub connections-remove_connection :
        removed.1.active.connections ≡ remove id s.active.connections
    unfolding remove_connection compute_counters
    connections-remove_connection = elim (Option-cases (lookup id s.active.connections)) [
      | inl missing ↦ rw (missing, close_removed)
      | inr (c, found) ↦ elim (shutdown_cases c.endpoint s.world) [
        | inl fine ↦ rw (found, close_removed) (rw fine)
        | inr panic ↦ rw (found, close_removed) (rw panic)
      ]
    ]

    -- The world after the endpoint of the entry, if there was one, is shut down.
    abbrev pub closed_world : Option PeerConnection → World os
    closed_world none = s.world
    closed_world (some c) = (Dispatch.shutdown c.endpoint s.world).1

    pub world-remove_connection : removed.1.world ≡ closed_world (lookup id s.active.connections)
    unfolding remove_connection
    world-remove_connection = elim (Option-cases (lookup id s.active.connections)) [
      | inl missing ↦ rw (missing, close_removed)
      | inr (c, found) ↦ elim (shutdown_cases c.endpoint s.world) [
        | inl fine ↦ rw (found, close_removed) (rw fine)
        | inr panic ↦ rw (found, close_removed) (rw panic)
      ]
    ]

    -- Exact counters stay exact in a call that does not panic.
    pub remove-IsCounted : IsCounted s.active → (removed.0 ≡ panicked) ⊎ IsCounted removed.1.active
    unfolding remove_connection compute_counters
    remove-IsCounted counted = elim (Option-cases (lookup id s.active.connections)) [
      | inl missing ↦ inr (
          rw (missing, close_removed)
            (rw (remove_absent id s.active.connections missing)
              (record { ins = counted.ins; outs = counted.outs })))
      | inr (c, found) ↦ elim (shutdown_cases c.endpoint s.world) [
        | inl fine ↦ inr (rw (found, close_removed) (rw fine (record { ins = refl; outs = refl })))
        | inr panic ↦ inl (rw (found, close_removed) (rw panic))
      ]
    ]

    pub remove-SameQueues : SameQueues removed.1.active s.active
    unfolding remove_connection compute_counters
    remove-SameQueues = elim (Option-cases (lookup id s.active.connections)) [
      | inl missing ↦ rw (missing, close_removed) (refl, refl)
      | inr (c, found) ↦ elim (shutdown_cases c.endpoint s.world) [
        | inl fine ↦ rw (found, close_removed) (rw fine (refl, refl))
        | inr panic ↦ rw (found, close_removed) (rw panic (refl, refl))
      ]
    ]

    -- It succeeds or panics.
    pub remove_cases : (removed.0 ≡ ok tt) ⊎ (removed.0 ≡ panicked)
    unfolding remove_connection compute_counters
    remove_cases = elim (Option-cases (lookup id s.active.connections)) [
      | inl missing ↦ inl (rw (missing, close_removed))
      | inr (c, found) ↦ elim (shutdown_cases c.endpoint s.world) [
        | inl fine ↦ inl (rw (found, close_removed) (rw fine))
        | inr panic ↦ inr (rw (found, close_removed) (rw panic))
      ]
    ]
