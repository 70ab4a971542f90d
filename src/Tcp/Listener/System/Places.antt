-- ===== src/Tcp/Listener/System/Places.antt =====
-- How many incoming connections the calls on the table add.
use peer_net.Base.{
  ℕ, ◌+◌, ◌≤◌, refl, inl, inr, String, Option, Eq, ◌==◌, count_if, Bool-cases, arith, if◌then◌else◌,
}
use peer_net.Base.Dict.{values, count_if-insert, count_if-remove-le}
use peer_net.Address.{addr_eq}
use peer_net.Config.Category.{PeerNetCategoryInfo}
use peer_net.Os.{Os}
use peer_net.Endpoint.{Endpoint, get_target_addr}
use peer_net.PeerConnection.{PeerConnectionType, in_, SendChannels, connection_type_eq}
use peer_net.Connections.{ActiveConnections, Shared, confirm_connection, remove_connection}
use peer_net.Connections.Checks.{check_addr_accepted_post_handshake_iff}
use peer_net.Connections.Calls.{
  SameQueues, confirm_accepted, confirm_refused, confirm-SameQueues, connections-remove_connection,
  entry, accepted,
}
use peer_net.Peer.{Handler, admit}

abbrev pub nb_in : {PeerId : Type 0} → ActiveConnections PeerId → ℕ
nb_in active = count_if (λ c. c.connection_type == in_) (values active.connections)

module _ {os : Os} {PeerId : Type 0} ⦃e : Eq PeerId⦄ (s : Shared os PeerId) where
  pub nb_in-remove-le : (id : PeerId) → nb_in (remove_connection id s).1.active ≤ nb_in s.active
  nb_in-remove-le id =
      rw (connections-remove_connection s id)
        (count_if-remove-le (λ c. c.connection_type == in_) id s.active.connections)

  -- One more connection counts as incoming only if it is.
  abbrev pub one_if : PeerConnectionType → ℕ
  one_if kind = if kind == in_ then 1 else 0

  nb_in-confirm-le :
      (id : PeerId) (endpoint : Endpoint) (channels : SendChannels) (kind : PeerConnectionType)
      (category : Option String) (info : PeerNetCategoryInfo)
      → nb_in (confirm_connection id endpoint channels kind category info s).1.active
        ≤ one_if kind + nb_in s.active
  nb_in-confirm-le id endpoint channels kind category info =
      elim (Bool-cases (accepted s id endpoint channels kind category info)) [
        | inl yes' ↦
            let (_, table, _) = confirm_accepted s id endpoint channels kind category info yes' in
            let (fresh, _, _) =
              (check_addr_accepted_post_handshake_iff s.active (get_target_addr endpoint) category
                  info id kind).0
                yes' in
            rw table (
              omega (
                arith,
                count_if-insert (λ c. c.connection_type == in_) id
                    (entry s id endpoint channels kind category info) s.active.connections fresh,
              ))
        | inr no' ↦
            let (_, table, _) = confirm_refused s id endpoint channels kind category info no' in
            rw table (omega arith)
      ]

  pub nb_in-admit-le :
      (handler : Handler os PeerId) (endpoint : Endpoint) (kind : PeerConnectionType)
      (category : Option String) (info : PeerNetCategoryInfo) (id : PeerId) (clone : Endpoint)
      (channels : SendChannels)
      → (nb_in (admit handler endpoint kind category info id clone channels s).1.active
          ≤ one_if kind + nb_in s.active)
        × SameQueues
            (admit handler endpoint kind category info id clone channels s).1.active
            s.active
  unfolding admit
  nb_in-admit-le handler endpoint kind category info id clone channels =
      elim (Bool-cases (id == handler.own)) [
        | inl self ↦ rw self (omega arith, (refl, refl))
        | inr other ↦ rw other (
          nb_in-confirm-le id clone channels kind category info,
          confirm-SameQueues s id clone channels kind category info,
        )
      ]
