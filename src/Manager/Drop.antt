-- ===== src/Manager/Drop.antt =====
-- What the drop of a manager does to its connections.
use peer_net.Base.{◌≡◌, refl, ap, inl, inr, List, [], ◌∷◌, ◌++◌}
use peer_net.Base.Dict.{values}
use peer_net.Act.{Outcome, ok, err, panicked, unfinished}
use peer_net.Os.{Os}
use peer_net.World.{World}
use peer_net.Endpoint.Dispatch
use peer_net.PeerConnection.{PeerConnection}
use peer_net.Connections.Calls.{shutdown_cases}
use peer_net.Manager.{Manager, shutdown_all, drop_manager}

module _ {os : Os} where
  -- The world after the endpoints of the connections are shut down, one after the other.
  abbrev pub shut : List PeerConnection → World os → World os
  shut [] w = w
  shut (c ∷ cs) w = shut cs (Dispatch.shutdown c.endpoint w).1

  -- How shutting them down ends: all are shut down, or those before one whose shutdown panics, and
  -- none after it.
  abbrev pub Shut : List PeerConnection → World os → Outcome (Unit {0}) → World os → Type 0
  Shut cs w (ok _) v = v ≡ shut cs w
  Shut cs w panicked v =
      (before : List PeerConnection) × (c : PeerConnection) × (after : List PeerConnection) × (cs
        ≡ before ++ c ∷ after)
      × ((Dispatch.shutdown c.endpoint (shut before w)).0 ≡ panicked)
      × (v ≡ (Dispatch.shutdown c.endpoint (shut before w)).1)
  Shut cs w (err _) v = ⊥
  Shut cs w unfinished v = ⊥

  cons-Shut :
      (c : PeerConnection) (cs : List PeerConnection) (w : World os) (o : Outcome (Unit {0}))
      (v : World os)
      → Shut cs (Dispatch.shutdown c.endpoint w).1 o v
      → Shut (c ∷ cs) w o v
  cons-Shut c cs w (ok _) v h = h
  cons-Shut c cs w panicked v (before, d, after, whole, panics, world) =
      (c ∷ before, d, after, ap (◌∷◌ c) whole, panics, world)
  cons-Shut c cs w (err _) v h = elim h [ ]
  cons-Shut c cs w unfinished v h = elim h [ ]

  shutdown_all-Shut :
      (cs : List PeerConnection) (w : World os)
      → Shut cs w (shutdown_all cs w).0 (shutdown_all cs w).1
  unfolding shutdown_all
  shutdown_all-Shut [] w = refl
  shutdown_all-Shut (c ∷ cs) w =
      let rest = shutdown_all-Shut cs (Dispatch.shutdown c.endpoint w).1 in
      elim (shutdown_cases c.endpoint w) [
        | inl fine ↦ rw fine (cons-Shut c cs w _ _ rest)
        | inr panics ↦ rw panics ([], c, cs, refl, panics, refl)
      ]

-- After the drop of a manager the table has no connection. Either the endpoint of each connection was
-- shut down, one after the other, or one of these calls panicked, and the endpoints after it were not
-- shut down.
pub drop_manager-Shut :
    {os : Os} {PeerId Ctx : Type 0} (m : Manager os PeerId Ctx)
    → ((drop_manager m).1.shared.active.connections ≡ [])
      × Shut
          (values m.shared.active.connections)
          m.shared.world
          (drop_manager m).0
          (drop_manager m).1.shared.world
unfolding drop_manager
drop_manager-Shut m = (refl, shutdown_all-Shut (values m.shared.active.connections) m.shared.world)
