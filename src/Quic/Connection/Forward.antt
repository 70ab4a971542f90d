-- ===== src/Quic/Connection/Forward.antt =====
-- What goes from a peer's channel to its connection of `quiche`.
use peer_net.Base.{refl, none}
use mathlib.Core.List.{append_assoc, append-nil, map-append}
use peer_net.Base.{
  ℕ, ◌≡◌, sym, ap, ◌∙◌, some, List, [], ◌∷◌, ◌++◌, map, Option-cases, ◌⊎◌, inl, inr,
}
use peer_net.Act.{Outcome, ok, err, panicked, unfinished}
use peer_net.Os.{Os, QuicInternalMessage, payload}
use peer_net.World.{World}
use peer_net.Loop.{Keeps, repeat_keeps}
use peer_net.Quic.Quiche.{Quiche}
use peer_net.Quic.Connection.{QuicConnection, Round, taken_out, forward_round, forward}
use peer_net.Quic.Connection.Order.{IsOrdered}

module _ {os : Os} (q : Quiche os) (laws : IsOrdered q) (c : QuicConnection) (w₀ : World os) where
  abbrev offered_to : World os → List (List ℕ)
  offered_to w = laws.offered c.connection w.state

  abbrev taken_from : World os → List QuicInternalMessage
  taken_from w = laws.taken c.send_rx w.state

  -- The messages `msgs` were taken from the channel and given to the connection, and then `rest` was
  -- taken.
  pub record Given (msgs : List (List ℕ)) (rest : List QuicInternalMessage) (w : World os)
      : Type 0 where
    pub given : offered_to w ≡ laws.offered c.connection w₀.state ++ msgs
    pub gone : taken_from w ≡ laws.taken c.send_rx w₀.state ++ (map payload msgs ++ rest)

  -- The world is that after a call that found the channel empty.
  abbrev pub FoundEmpty : World os → Type 0
  FoundEmpty w =
      (v : World os) × ((q.try_recv_internal c.send_rx v.state).0 ≡ none)
      × (w ≡ record v { state = (q.try_recv_internal c.send_rx v.state).1 })

  abbrev pub Forwarded : Outcome (Unit {0}) → World os → Type 0
  Forwarded (ok _) w =
      (msgs : List (List ℕ)) × ((Given msgs [] w × FoundEmpty w)
        ⊎ Given msgs (QuicInternalMessage.shutdown ∷ []) w)
  Forwarded (err _) w = ⊥
  Forwarded panicked w = ⊥
  Forwarded unfinished w = (msgs : List (List ℕ)) × Given msgs [] w

  abbrev Givens : Round os → Type 0
  Givens r = Keeps (λ _ w. (msgs : List (List ℕ)) × Given msgs [] w) Forwarded r.0 r.1

  -- One more message is taken, from `w` by `v`.
  took :
      (msgs : List (List ℕ)) (m : QuicInternalMessage) (w v : World os)
      → Given msgs [] w
      → taken_from v ≡ taken_from w ++ m ∷ []
      → taken_from v ≡ laws.taken c.send_rx w₀.state ++ (map payload msgs ++ m ∷ [])
  took msgs m w v mid law =
      law
      ∙ ap (λ l. l ++ m ∷ []) (mid.gone ∙ ap (◌++◌ (laws.taken c.send_rx w₀.state)) (append-nil _))
      ∙ append_assoc (laws.taken c.send_rx w₀.state) (map payload msgs) (m ∷ [])

  taken_out-Givens :
      (msgs : List (List ℕ)) (m : QuicInternalMessage) (w v : World os)
      → Given msgs [] w
      → taken_from v ≡ taken_from w ++ m ∷ []
      → offered_to v ≡ offered_to w
      → Givens (taken_out q c (some m) v)
  unfolding taken_out
  taken_out-Givens msgs (payload bytes) w v mid took_one same =
      let (more, kept) = laws.dgram_send_law c.connection c.send_rx bytes v.state in
      (
        msgs ++ bytes ∷ [],
        record {
          given =
              more
              ∙ ap (λ l. l ++ bytes ∷ []) (same ∙ mid.given)
              ∙ append_assoc (laws.offered c.connection w₀.state) msgs (bytes ∷ []);
          gone =
              kept
              ∙ took msgs (payload bytes) w v mid took_one
              ∙ ap (◌++◌ (laws.taken c.send_rx w₀.state))
                  (sym (append-nil _ ∙ map-append payload msgs (bytes ∷ [])));
        },
      )
  taken_out-Givens msgs QuicInternalMessage.shutdown w v mid took_one same = (
    msgs,
    inr (record {
      given = same ∙ mid.given;
      gone = took msgs QuicInternalMessage.shutdown w v mid took_one;
    }),
  )

  forward_round-Givens :
      (msgs : List (List ℕ)) (w : World os) → Given msgs [] w → Givens (forward_round q c tt w)
  unfolding forward_round taken_out
  forward_round-Givens msgs w mid = elim (Option-cases (q.try_recv_internal c.send_rx w.state).0) [
    | inl nothing ↦
        let (same, kept) = laws.try_none c.connection c.send_rx w.state nothing in
        rw nothing (
          msgs,
          inl (record { given = kept ∙ mid.given; gone = same ∙ mid.gone }, (w, nothing, refl)),
        )
    | inr (m, here) ↦
        let (more, kept) = laws.try_some c.connection c.send_rx w.state m here in
        rw here (taken_out-Givens msgs m w _ mid more kept)
  ]

  -- However many rounds the loop makes: the connection is given exactly the messages that are taken
  -- from the peer's channel, in their order. Where the loop ends, its last call has found the channel
  -- empty, or it has taken a request to shut down as the last message.
  pub forward-Forwarded : (fuel : ℕ) → Forwarded (forward q fuel c w₀).0 (forward q fuel c w₀).1
  unfolding forward
  forward-Forwarded fuel =
      repeat_keeps (λ _ w. (msgs : List (List ℕ)) × Given msgs [] w) Forwarded (forward_round q c)
        (λ _ w mid. forward_round-Givens mid.0 w mid.1) (λ _ w mid. mid) fuel tt w₀
        ([], record { given = sym (append-nil _); gone = sym (append-nil _) })
