-- ===== src/Quic/Listener/Kept.antt =====
-- What the thread of a QUIC listener keeps of the map of connections.
use peer_net.Base.{
  ℕ, ◌+◌, ◌≡◌, refl, ap, ◌∙◌, ◌⊎◌, inl, inr, String, Option, none, some, true, List, [], ◌∷◌, ◌==◌,
  Bool-cases, Option-cases, test_eq, arith, length,
}
use peer_net.Base.Dict.{lookup, contains_key, lookup-insert, length-insert}
use peer_net.Address.{SocketAddr, addr_eq}
use peer_net.Act.{Outcome, ok, err, panicked, unfinished, ◌>>◌}
use peer_net.Os.{Os}
use peer_net.World.{World}
use peer_net.Endpoint.{QuicEndpoint}
use peer_net.Quic.Quiche.{Quiche, Header}
use peer_net.Quic.Connection.{QuicConnection}
use peer_net.Quic.Listener.{
  Listening, Listener, asks, peer_endpoint, admitted, accepted, peer_made, fed, feed, feed_from,
  handle_parsed,
}

-- The connection later, with the same handles; what was established stays so.
abbrev pub Later : QuicConnection → QuicConnection → Type 0
Later c d =
    (d.connection ≡ c.connection)
    × (d.send_rx ≡ c.send_rx)
    × (d.recv_tx ≡ c.recv_tx)
    × (c.is_established ≡ true → d.is_established ≡ true)

-- An entry of the map later; a missing one may be there.
abbrev pub EntryLater : Option QuicConnection → Option QuicConnection → Type 0
EntryLater none o = Unit
EntryLater (some c) none = ⊥
EntryLater (some c) (some d) = Later c d

pub EntryLater-refl : (o : Option QuicConnection) → EntryLater o o
EntryLater-refl none = tt
EntryLater-refl (some c) = (refl, refl, refl, λ h. h)

pub EntryLater-trans :
    (a b c : Option QuicConnection) → EntryLater a b → EntryLater b c → EntryLater a c
EntryLater-trans none b c p q = tt
EntryLater-trans (some x) (some y) (some z) (a, b, c, d) (a', b', c', d') =
    (a' ∙ a, b' ∙ b, c' ∙ c, λ h. d' (d h))
EntryLater-trans (some x) (some y) none p q = elim q [ ]
EntryLater-trans (some x) none c p q = elim p [ ]

-- Each endpoint has the address.
abbrev pub AllAt : SocketAddr → List QuicEndpoint → Type 0
AllAt a [] = Unit
AllAt a (e ∷ es) = (e.address ≡ a) × AllAt a es

module _ {os : Os} (l : Listener) (s : Listening os) where
  -- From `s` on, no entry has left the map; each new one came with the thread of a peer, save
  -- `missing` of them, and the endpoint of each of these threads has the address of the listener itself.
  pub record Kept (missing : ℕ) (t : Listening os) : Type 0 where
    pub entries : (a : SocketAddr) → EntryLater (lookup a s.connections) (lookup a t.connections)
    pub counted :
        length t.started + missing + length s.connections ≡ length s.started + length t.connections
    pub own : AllAt l.address s.started → AllAt l.address t.started

  -- Only where the thread panics can an entry be without the thread of its peer.
  abbrev pub Ended : {A : Type 0} → Outcome A → Listening os → Type 0
  Ended (ok _) t = Kept 0 t
  Ended (err _) t = Kept 0 t
  Ended panicked t = Kept 0 t ⊎ Kept 1 t
  Ended unfinished t = Kept 0 t

  pub Kept-Ended : {A : Type 0} (o : Outcome A) (t : Listening os) → Kept 0 t → Ended o t
  Kept-Ended (ok _) t kept = kept
  Kept-Ended (err _) t kept = kept
  Kept-Ended panicked t kept = inl kept
  Kept-Ended unfinished t kept = kept

  pub with_world :
      (n : ℕ) (t : Listening os) (w : World os) → Kept n t → Kept n (record t { world = w })
  with_world n t w kept = record { entries = kept.entries; counted = kept.counted; own = kept.own }

  pub start-Kept : Kept 0 s
  start-Kept = record {
    entries = λ a. EntryLater-refl (lookup a s.connections);
    counted = omega arith;
    own = λ h. h;
  }

module _ {os : Os} (q : Quiche os) (l : Listener) (s : Listening os) where
  abbrev pub Fine : {A : Type 0} → Outcome A × Listening os → Type 0
  Fine r = Ended l s r.0 r.1

  peer_made-Kept :
      (endpoint : QuicEndpoint) (r : Option ℕ × Listening os)
      → endpoint.address ≡ l.address
      → Kept l s 1 r.1
      → Fine (peer_made q l endpoint r)
  unfolding peer_made
  peer_made-Kept endpoint (none, x) at_own kept = inr kept
  peer_made-Kept endpoint (some _, x) at_own kept = record {
    entries = kept.entries;
    counted = omega (arith, kept.counted);
    own = λ h. (at_own, kept.own h);
  }

  admitted-Kept :
      (from : SocketAddr) (connection : ℕ) (x : Listening os)
      → lookup from x.connections ≡ none
      → Kept l s 0 x
      → Fine (admitted q l from connection x)
  unfolding admitted peer_endpoint
  admitted-Kept from connection x fresh kept = peer_made-Kept _ _ refl (record {
    entries = λ a.
        EntryLater-trans (lookup a s.connections) (lookup a x.connections) _ (kept.entries a) (
          rw (lookup-insert a from _ x.connections) (elim (Bool-cases (a == from)) [
            | inl here ↦
                rw (here, ap (λ b. lookup b x.connections) (test_eq a from here) ∙ fresh) tt
            | inr other ↦ rw other (EntryLater-refl (lookup a x.connections))
          ]));
    counted = omega (arith, kept.counted, length-insert from _ x.connections fresh);
    own = kept.own;
  })

  fed-Kept :
      (c : QuicConnection) (from : SocketAddr) (r : Option String × Listening os)
      → Kept l s 0 r.1
      → Fine (fed q l c from r)
  unfolding fed
  fed-Kept c from (some text, x) kept = kept
  fed-Kept c from (none, x) kept = elim (Bool-cases c.is_established) [
    | inl yes' ↦ rw yes' (Kept-Ended l s _ _ (with_world l s 0 x _ kept))
    | inr no' ↦ rw no' kept
  ]

  feed-Kept :
      (bytes : List ℕ) (from : SocketAddr) (o : Option QuicConnection) (x : Listening os)
      → Kept l s 0 x
      → Fine (feed q l bytes from o x)
  unfolding feed
  feed-Kept bytes from none x kept = inl kept
  feed-Kept bytes from (some c) x kept =
      fed-Kept c from (asks q l (q.recv c.connection bytes from l.address) x)
        (with_world l s 0 x _ kept)

  accepted-Kept :
      (from : SocketAddr) (r : (String ⊎ ℕ) × Listening os)
      → lookup from r.1.connections ≡ none
      → Kept l s 0 r.1
      → Fine (accepted q l from r)
  unfolding accepted
  accepted-Kept from (inl text, x) fresh kept = kept
  accepted-Kept from (inr connection, x) fresh kept = admitted-Kept from connection x fresh kept

  -- An action after another that may fail.
  pub then-Kept :
      (r : Outcome (Unit {0}) × Listening os) {A : Type 0}
      (k : Listening os → Outcome A × Listening os)
      → Fine r
      → ((x : Listening os) → Kept l s 0 x → Fine (k x))
      → Fine (((λ (_ : Listening os). r) >> k) s)
  then-Kept (ok _, x) k kept next = next x kept
  then-Kept (err _, x) k kept next = kept
  then-Kept (panicked, x) k kept next = kept
  then-Kept (unfinished, x) k kept next = kept

  pub handle_parsed-Kept :
      (bytes : List ℕ) (from : SocketAddr) (header : Option Header) (x : Listening os)
      → Kept l s 0 x
      → Fine (handle_parsed q l bytes from header x)
  unfolding handle_parsed feed_from contains_key
  handle_parsed-Kept bytes from none x kept = inl kept
  handle_parsed-Kept bytes from (some header) x kept =
      elim (Option-cases (lookup from x.connections)) [
        | inr (c, known) ↦ rw known (feed-Kept bytes from (some c) x kept)
        | inl fresh ↦ elim (Bool-cases header.is_initial) [
          | inr no' ↦ rw (fresh, no') kept
          | inl yes' ↦
              let tried = asks q l (q.accept header.scid l.address from) x in
              rw (fresh, yes')
                (then-Kept (accepted q l from tried) (feed_from q l bytes from)
                  (accepted-Kept from tried fresh (with_world l s 0 x _ kept))
                  (λ y kept'. feed-Kept bytes from (lookup from y.connections) y kept'))
        ]
      ]
