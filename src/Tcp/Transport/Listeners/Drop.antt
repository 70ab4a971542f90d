-- ===== src/Tcp/Transport/Listeners/Drop.antt =====
-- What the drop of a TCP transport leaves of its listeners.
use peer_net.Base.{
  ◌≡◌, refl, ◌∙◌, ap, ◌⊎◌, inl, inr, none, true, List, [], ◌∷◌, ◌==◌, contains, test_eq, test_eq,
  Bool-cases,
}
use peer_net.Base.Dict.{keys, lookup, remove, NodupKeys, lookup-remove, lookup-keys}
use peer_net.Address.{SocketAddr, addr_eq}
use peer_net.Act.{Outcome, ok, err, panicked, unfinished, ◌>>◌}
use peer_net.Os.{Os}
use peer_net.Tcp.Transport.{On, stop_listener, unwrapped, drop_all, drop_transport}
use peer_net.Tcp.Transport.Listeners.{IsListed, Stopped, Stopped-IsListed, stop_listener_lem}

module _ {os : Os} {PeerId : Type 0} where
  -- The listeners of the transport are at the given addresses.
  abbrev Covers : List SocketAddr → On os PeerId → Type 0
  Covers addresses x =
      (a : SocketAddr) → (lookup a x.transport.listeners ≡ none) ⊎ (contains addresses a ≡ true)

  -- How a drop ends.
  abbrev pub Dropped : Outcome (Unit {0}) → On os PeerId → Type 0
  Dropped (ok _) x = (a : SocketAddr) → lookup a x.shared.active.listeners ≡ none
  Dropped (err _) x = ⊥
  Dropped panicked x = IsListed x
  Dropped unfinished x = ⊥

  none_left : (x : On os PeerId) → IsListed x → Covers [] x → Dropped (ok tt) x
  none_left x is covers a = elim (is.agree a) [
    | inl (_, gone) ↦ gone
    | inr (t, here, _) ↦ elim (covers a) [ inl gone ↦ cc | inr known ↦ cc ]
  ]

  stop-Covers :
      (address : SocketAddr) (addresses : List SocketAddr) (x y : On os PeerId)
      → NodupKeys x.transport.listeners
      → y.transport.listeners ≡ remove address x.transport.listeners
      → Covers (address ∷ addresses) x
      → Covers addresses y
  stop-Covers address addresses x y distinct own covers a = rw own (
      rw (lookup-remove a address x.transport.listeners distinct)
        (elim (Bool-cases (a == address)) [
          | inl here ↦ rw here (inl refl)
          | inr other ↦ rw other (rw other at (covers a))
        ]))

  skip-Covers :
      (address : SocketAddr) (addresses : List SocketAddr) (x : On os PeerId)
      → lookup address x.transport.listeners ≡ none
      → Covers (address ∷ addresses) x
      → Covers addresses x
  skip-Covers address addresses x missing covers a = elim (Bool-cases (a == address)) [
    | inl here ↦ inl (ap (λ b. lookup b x.transport.listeners) (test_eq a address here) ∙ missing)
    | inr other ↦ rw other at (covers a)
  ]

  -- A stop in a drop: what the rest of the drop starts from, if it is reached.
  abbrev Rest : List SocketAddr → Outcome (Unit {0}) × On os PeerId → Type 0
  Rest addresses (ok _, y) = IsListed y × Covers addresses y
  Rest addresses (err _, y) = IsListed y
  Rest addresses (panicked, y) = IsListed y
  Rest addresses (unfinished, y) = ⊥

  stop-Rest :
      (address : SocketAddr) (addresses : List SocketAddr) (x : On os PeerId)
      → IsListed x
      → Covers (address ∷ addresses) x
      → Rest addresses (stop_listener address x)
  stop-Rest address addresses x is covers = elim (stop_listener_lem address x) [
    | inl (_, same) ↦ rw same is
    | inr (_, _, gone) ↦
        go (stop_listener address x) gone
          (Stopped-IsListed address x (stop_listener address x) gone is)
  ]
    where
      go :
          (r : Outcome (Unit {0}) × On os PeerId)
          → Stopped address x r
          → IsListed r.1
          → Rest addresses r
      go (ok _, y) gone is' = (is', stop-Covers address addresses x y is.own_distinct gone.0 covers)
      go (err _, y) gone is' = is'
      go (panicked, y) gone is' = is'
      go (unfinished, y) gone is' = elim gone [ ]

  drop_all-Dropped :
      (addresses : List SocketAddr) (x : On os PeerId)
      → IsListed x
      → Covers addresses x
      → Dropped (drop_all addresses x).0 (drop_all addresses x).1
  unfolding drop_all unwrapped
  drop_all-Dropped [] x is covers = none_left x is covers
  drop_all-Dropped (address ∷ addresses) x is covers =
      go (stop_listener address x) (stop-Rest address addresses x is covers)
        (drop_all-Dropped addresses)
    where
      go :
          (r : Outcome (Unit {0}) × On os PeerId)
          → Rest addresses r
          → ((y : On os PeerId)
              → IsListed y
              → Covers addresses y
              → Dropped (drop_all addresses y).0 (drop_all addresses y).1)
          → Dropped
              (((λ _. unwrapped r) >> drop_all addresses) x).0
              (((λ _. unwrapped r) >> drop_all addresses) x).1
      go (ok _, y) (is', covers') rest = rest y is' covers'
      go (err _, y) is' rest = is'
      go (panicked, y) is' rest = is'
      go (unfinished, y) is' rest = elim is' [ ]

  -- Where the shared table names exactly the listeners of the transport, a drop of the transport ends:
  -- either no address is listed any more, or it panicked, and then the table still names exactly the
  -- listeners that are left.
  pub drop_transport-Dropped :
      (x : On os PeerId) → IsListed x → Dropped (drop_transport x).0 (drop_transport x).1
  unfolding drop_transport
  drop_transport-Dropped x is =
      drop_all-Dropped (keys x.transport.listeners) x is (λ a. lookup-keys a x.transport.listeners)
