-- ===== src/Quic/Connection/Order.antt =====
-- The order of messages between `quiche` and the channels of a peer.
use mathlib.Core.List.{append_assoc, append-nil, map-append}
use peer_net.Base.{
  ℕ, ◌<◌, ◌≡◌, refl, sym, ap, ◌∙◌, String, none, some, List, [], ◌∷◌, ◌++◌, map, arith, length,
  Option-cases, inl, inr,
}
use peer_net.Act.{Outcome, ok, err, panicked, unfinished}
use peer_net.Os.{Os, QuicInternalMessage, payload}
use peer_net.World.{World}
use peer_net.Loop.{Keeps, repeat_ends}
use peer_net.Quic.Quiche.{Quiche}
use peer_net.Quic.Connection.{QuicConnection, Round, delivered, received, deliver_round, deliver}

-- What the thread relies on. `incoming` are the datagrams that a connection holds, up to the first that
-- is too long for the buffer of 512 bytes, `offered` those that it was given, `sent` all that one sender has put on a channel, and `taken` all that one receiver
-- has got from one.
pub record IsOrdered {os : Os} (q : Quiche os) : Type 0 where
  pub incoming : ℕ → os.State → List (List ℕ)
  pub offered : ℕ → os.State → List (List ℕ)
  pub sent : ℕ → os.State → List QuicInternalMessage
  pub taken : ℕ → os.State → List QuicInternalMessage
  -- datagrams are taken one by one from the front
  pub dgram_none :
      (c tx : ℕ) (s : os.State)
      → (q.dgram_recv c s).0 ≡ none
      → (incoming c s ≡ []) × (sent tx (q.dgram_recv c s).1 ≡ sent tx s)
  pub dgram_some :
      (c tx : ℕ) (s : os.State) (bytes : List ℕ)
      → (q.dgram_recv c s).0 ≡ some bytes
      → (incoming c s ≡ bytes ∷ incoming c (q.dgram_recv c s).1)
        × (sent tx (q.dgram_recv c s).1 ≡ sent tx s)
  -- a channel takes the message, or the call fails
  pub send_none :
      (c tx : ℕ) (m : QuicInternalMessage) (s : os.State)
      → (os.send_internal tx m s).0 ≡ none
      → (sent tx (os.send_internal tx m s).1 ≡ sent tx s ++ m ∷ [])
        × (incoming c (os.send_internal tx m s).1 ≡ incoming c s)
  pub send_some :
      (c tx : ℕ) (m : QuicInternalMessage) (s : os.State) (text : String)
      → (os.send_internal tx m s).0 ≡ some text
      → (sent tx (os.send_internal tx m s).1 ≡ sent tx s)
        × (incoming c (os.send_internal tx m s).1 ≡ incoming c s)
  pub try_none :
      (c rx : ℕ) (s : os.State)
      → (q.try_recv_internal rx s).0 ≡ none
      → (taken rx (q.try_recv_internal rx s).1 ≡ taken rx s)
        × (offered c (q.try_recv_internal rx s).1 ≡ offered c s)
  pub try_some :
      (c rx : ℕ) (s : os.State) (m : QuicInternalMessage)
      → (q.try_recv_internal rx s).0 ≡ some m
      → (taken rx (q.try_recv_internal rx s).1 ≡ taken rx s ++ m ∷ [])
        × (offered c (q.try_recv_internal rx s).1 ≡ offered c s)
  pub dgram_send_law :
      (c rx : ℕ) (bytes : List ℕ) (s : os.State)
      → (offered c (q.dgram_send c bytes s) ≡ offered c s ++ bytes ∷ [])
        × (taken rx (q.dgram_send c bytes s) ≡ taken rx s)

module _ {os : Os} (q : Quiche os) (laws : IsOrdered q) (c : QuicConnection) (w₀ : World os) where
  abbrev left_in : World os → List (List ℕ)
  left_in w = laws.incoming c.connection w.state

  abbrev sent_on : World os → List QuicInternalMessage
  sent_on w = laws.sent c.recv_tx w.state

  -- `moved` has gone from the connection to the channel.
  pub record Moved (moved : List (List ℕ)) (w : World os) : Type 0 where
    pub off : laws.incoming c.connection w₀.state ≡ moved ++ left_in w
    pub onto : sent_on w ≡ laws.sent c.recv_tx w₀.state ++ map payload moved

  abbrev pub Delivered : Outcome (Unit {0}) → World os → Type 0
  Delivered (ok _) w =
      sent_on w ≡ laws.sent c.recv_tx w₀.state ++ map payload (laws.incoming c.connection w₀.state)
  Delivered (err _) w =
      (moved : List (List ℕ)) × (lost : List ℕ) × (laws.incoming c.connection w₀.state
        ≡ moved ++ (lost ∷ left_in w))
      × (sent_on w ≡ laws.sent c.recv_tx w₀.state ++ map payload moved)
  Delivered panicked w = ⊥
  Delivered unfinished w = ⊥

  abbrev Some : World os → Type 0
  Some w = (moved : List (List ℕ)) × Moved moved w

  abbrev Rounds : ℕ → Round os → Type 0
  Rounds m r = Keeps (λ _ w. Some w × (length (left_in w) < m)) Delivered r.0 r.1

  -- One more datagram on its way, from `w` by `v` to `t`.
  one_more :
      (moved : List (List ℕ)) (bytes : List ℕ) (w v t : World os)
      → Moved moved w
      → left_in w ≡ bytes ∷ left_in v
      → sent_on v ≡ sent_on w
      → (sent_on t ≡ sent_on v ++ payload bytes ∷ []) × (left_in t ≡ left_in v)
      → Moved (moved ++ bytes ∷ []) t
  one_more moved bytes w v t mid front same (onto, rest) = record {
    off =
        mid.off
        ∙ ap (◌++◌ moved) (front ∙ ap (◌∷◌ bytes) (sym rest))
        ∙ sym (append_assoc moved (bytes ∷ []) (left_in t));
    onto =
        onto
        ∙ ap (λ l. l ++ payload bytes ∷ []) (same ∙ mid.onto)
        ∙ append_assoc (laws.sent c.recv_tx w₀.state) (map payload moved) (payload bytes ∷ [])
        ∙ ap (◌++◌ (laws.sent c.recv_tx w₀.state)) (sym (map-append payload moved (bytes ∷ [])));
  }

  received-Rounds :
      (moved : List (List ℕ)) (bytes : List ℕ) (w v : World os)
      → Moved moved w
      → left_in w ≡ bytes ∷ left_in v
      → sent_on v ≡ sent_on w
      → Rounds (length (left_in w)) (received q c.recv_tx (some bytes) v)
  unfolding received delivered
  received-Rounds moved bytes w v mid front same =
      elim (Option-cases (os.send_internal c.recv_tx (payload bytes) v.state).0) [
        | inl fine ↦
            let law = laws.send_none c.connection c.recv_tx (payload bytes) v.state fine in
            rw fine (
              (moved ++ bytes ∷ [], one_more moved bytes w v _ mid front same law),
              rw (law.1, front) (omega arith),
            )
        | inr (text, failed) ↦
            let (kept, rest) =
              laws.send_some c.connection c.recv_tx (payload bytes) v.state text failed in
            rw failed (
              moved,
              bytes,
              mid.off ∙ ap (◌++◌ moved) (front ∙ ap (◌∷◌ bytes) (sym rest)),
              kept ∙ same ∙ mid.onto,
            )
      ]

  deliver_round-Rounds :
      (w : World os) → Some w → Rounds (length (left_in w)) (deliver_round q c tt w)
  unfolding deliver_round received
  deliver_round-Rounds w (moved, mid) = elim (Option-cases (q.dgram_recv c.connection w.state).0) [
    | inl none_left ↦
        let (empty, same) = laws.dgram_none c.connection c.recv_tx w.state none_left in
        let all_moved : laws.incoming c.connection w₀.state ≡ moved =
          mid.off ∙ ap (◌++◌ moved) empty ∙ append-nil moved in
        rw none_left (
          same ∙ mid.onto ∙ ap (λ m. laws.sent c.recv_tx w₀.state ++ map payload m) (sym all_moved))
    | inr (bytes, here) ↦
        let (front, same) = laws.dgram_some c.connection c.recv_tx w.state bytes here in
        rw here (received-Rounds moved bytes w _ mid front same)
  ]

  -- With fuel for each datagram that the connection holds, up to the first that is too long for the
  -- buffer, delivering them ends: all of these have gone to the channel in order, or the channel
  -- refused one, which is lost, after those before it.
  pub deliver-Delivered :
      (fuel : ℕ)
      → length (laws.incoming c.connection w₀.state) < fuel
      → Delivered (deliver q fuel c w₀).0 (deliver q fuel c w₀).1
  unfolding deliver
  deliver-Delivered fuel enough =
      repeat_ends (λ _ w. Some w) Delivered (deliver_round q c) (λ _ w. length (left_in w))
        (λ _ w mid. deliver_round-Rounds w mid) fuel tt w₀ enough
        ([], record { off = refl; onto = sym (append-nil _) })
