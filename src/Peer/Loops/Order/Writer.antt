-- ===== src/Peer/Loops/Order/Writer.antt =====
-- The writer of a peer puts on its stream what it takes from its channels.
use peer_net.Base.{
  ℕ, zero, suc, ◌+◌, ◌%◌, ◌^◌, ◌<◌, ◌≡◌, refl, ◌⊎◌, inl, inr, some, none, List, [], ◌∷◌, ◌++◌, Eq,
}
use peer_net.Act.{Outcome, ok, err, panicked, unfinished}
use mathlib.Core.Path.{subst}
use peer_net.Loop.{Step, stop, again, repeat, follow}
use peer_net.Connections.Calls.{remove_cases}
use peer_net.Os.{Os, TryRecv, received, is_empty, is_disconnected, Ready, stopped, low, high}
use peer_net.World.{World}
use peer_net.Endpoint.{TcpEndpoint, tcp}
use peer_net.Endpoint.Dispatch
use peer_net.Connections.{Shared}
use peer_net.Peer.{Running}
use peer_net.Peer.Loops.{
  writer, writer_round, after_try, after_select, write_message, after_send, drop_peer,
  after_removal,
}
use peer_net.Peer.Loops.Prompt.{frames}
use peer_net.Tcp.Exact.Writes.{sent_at}
use peer_net.Tcp.Framing.{send}
use peer_net.Tcp.Stream.{IsStream}
use peer_net.Peer.Loops.Order.{
  IsAside, Taken, tried, chosen, at_once, waited_low, waited_high, Sends, nothing, message,
  Sends-frames,
}

module _ {os : Os} {PeerId : Type 0} (fuel peer_stop : ℕ) (peer : Running PeerId) (e : TcpEndpoint)
    ⦃eq : Eq PeerId⦄ (is_tcp : peer.write_endpoint ≡ tcp e) where
  -- One round of the writer: it sends a message that it took, or it is the last one.
  abbrev Went : Shared os PeerId → Step (Unit {0}) (Unit {0}) → Shared os PeerId → Type 0
  Went s (stop o) t = Unit
  Went s (again _) t =
      (m : List ℕ) × (w : World os) × Taken fuel peer_stop peer e m s.world w
      × ((send os fuel e m w).0 ≡ ok tt)
      × (t ≡ record s { world = (send os fuel e m w).1 })

  abbrev WentRound : Shared os PeerId → Step (Unit {0}) (Unit {0}) × Shared os PeerId → Type 0
  WentRound s r = Went s r.0 r.1

  drop_peer-Went : (s t : Shared os PeerId) → WentRound s (drop_peer peer.peer_id (stop (ok tt)) t)
  unfolding drop_peer after_removal
  drop_peer-Went s t = elim (remove_cases t peer.peer_id) [
    | inl fine ↦ rw fine tt
    | inr panic ↦ rw panic tt
  ]

  after_send-Went :
      (m : List ℕ) (s : Shared os PeerId) (w : World os) (o : Outcome (Unit {0}))
      → Taken fuel peer_stop peer e m s.world w
      → (send os fuel e m w).0 ≡ o
      → WentRound s (after_send peer.peer_id o (record s { world = (send os fuel e m w).1 }))
  unfolding after_send
  after_send-Went m s w (ok _) taken fine = (m, w, taken, fine, refl)
  after_send-Went m s w (err _) taken bad = drop_peer-Went s _
  after_send-Went m s w panicked taken bad = tt
  after_send-Went m s w unfinished taken bad = tt

  write_message-Went :
      (m : List ℕ) (s : Shared os PeerId) (w : World os)
      → Taken fuel peer_stop peer e m s.world w
      → WentRound s (write_message fuel peer m (record s { world = w }))
  unfolding write_message Dispatch.send
  write_message-Went m s w taken = rw is_tcp (after_send-Went m s w _ taken refl)

  after_select-Went :
      (s : Shared os PeerId) (r : Ready)
      → (tried fuel peer_stop peer e s.world).0 ≡ is_empty
      → (chosen fuel peer_stop peer e s.world).0 ≡ r
      → WentRound s
          (after_select fuel peer r (record s { world = (chosen fuel peer_stop peer e s.world).1 }))
  unfolding after_select
  after_select-Went s stopped none_high was = tt
  after_select-Went s (low none) none_high was = tt
  after_select-Went s (low (some m)) none_high was =
      write_message-Went m s (chosen fuel peer_stop peer e s.world).1 (waited_low none_high was)
  after_select-Went s (high none) none_high was = tt
  after_select-Went s (high (some m)) none_high was =
      write_message-Went m s (chosen fuel peer_stop peer e s.world).1 (waited_high none_high was)

  after_try-Went :
      (s : Shared os PeerId) (r : TryRecv)
      → (tried fuel peer_stop peer e s.world).0 ≡ r
      → WentRound s (
          after_try fuel peer_stop peer r
            (record s { world = (tried fuel peer_stop peer e s.world).1 }))
  unfolding after_try
  after_try-Went s (received m) was =
      write_message-Went m s (tried fuel peer_stop peer e s.world).1 (at_once was)
  after_try-Went s is_empty was =
      after_select-Went s (chosen fuel peer_stop peer e s.world).0 was refl
  after_try-Went s is_disconnected was = tt

  writer_round-Went : (s : Shared os PeerId) → WentRound s (writer_round fuel peer_stop peer tt s)
  unfolding writer_round
  writer_round-Went s = after_try-Went s (tried fuel peer_stop peer e s.world).0 refl

  -- How the writer may end from `s`: some messages are sent up to `u`, and then the rounds are used
  -- up, or the round at `u` ends the loop.
  abbrev pub Wrote : Shared os PeerId → Outcome (Unit {0}) × Shared os PeerId → Type 0
  Wrote s r =
      (ms : List (List ℕ)) × (u : Shared os PeerId) × Sends fuel peer_stop peer e ms s u
      × ((r ≡ (unfinished, u)) ⊎ (writer_round fuel peer_stop peer tt u ≡ (stop r.0, r.1)))

  next-Wrote :
      (rounds : ℕ) (s : Shared os PeerId) (step : Step (Unit {0}) (Unit {0})) (t : Shared os PeerId)
      → writer_round fuel peer_stop peer tt s ≡ (step, t)
      → Went s step t
      → ((x : Shared os PeerId) → Wrote x (repeat rounds (writer_round fuel peer_stop peer) tt x))
      → Wrote s (follow (repeat rounds (writer_round fuel peer_stop peer)) step t)
  next-Wrote rounds s (stop o) t was went rest = ([], s, nothing s, inr was)
  next-Wrote rounds s (again _) t was (m, w, taken, fine, to) rest =
      let (ms, u, sends, ended) = rest t in
      (
        m ∷ ms,
        u,
        message m ms s u w taken fine (subst (λ x. Sends fuel peer_stop peer e ms x u) to sends),
        ended,
      )

  pub writer-Wrote :
      (rounds : ℕ) (s : Shared os PeerId) → Wrote s (writer rounds fuel peer_stop peer s)
  unfolding writer repeat
  writer-Wrote zero s = ([], s, nothing s, inl refl)
  writer-Wrote (suc rounds) s =
      next-Wrote rounds s _ _ refl (writer_round-Went s) (λ x. writer-Wrote rounds x)

  -- For any number of rounds, with fuel for a message of the limit and channels that put nothing on
  -- the stream: up to a state `u` the writer of a TCP endpoint takes messages one by one, those of
  -- low priority only where it finds none of high priority waiting, puts on the stream exactly their
  -- frames, in the order in which it took them, and does not change the table; at `u` its rounds are
  -- used up, or the round at `u` ends the loop.
  pub writer_in_order :
      (stream : IsStream os)
      → IsAside os stream e.stream
      → e.config.max_message_size % 2 ^ 32 + 4 < fuel
      → (rounds : ℕ) (s : Shared os PeerId)
      → (ms : List (List ℕ)) × (u : Shared os PeerId) × Sends fuel peer_stop peer e ms s u
        × (sent_at os stream e u.world ≡ sent_at os stream e s.world ++ frames ms)
        × (u.active ≡ s.active)
        × (((writer rounds fuel peer_stop peer s) ≡ (unfinished, u))
            ⊎ (writer_round fuel peer_stop peer tt u ≡ (
              stop (writer rounds fuel peer_stop peer s).0,
              (writer rounds fuel peer_stop peer s).1,
            )))
  writer_in_order stream aside enough rounds s =
      let (ms, u, sends, ended) = writer-Wrote rounds s in
      let (out, same) = Sends-frames fuel peer_stop peer e stream aside enough ms s u sends in
      (ms, u, sends, out, same, ended)
