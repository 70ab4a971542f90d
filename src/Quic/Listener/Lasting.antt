-- ===== src/Quic/Listener/Lasting.antt =====
-- The map of connections through the rounds of a QUIC listener.
use peer_net.Base.{
  ℕ, ◌≡◌, refl, inl, inr, String, Option, none, some, Bool, true, false, List, [], ◌∷◌, ◌==◌,
  Bool-cases, arith, length,
}
use peer_net.Base.Dict.{Dict, lookup}
use peer_net.Address.{SocketAddr, addr_eq}
use peer_net.Act.{Outcome, ok, err, panicked, unfinished}
use peer_net.Os.{Os}
use peer_net.World.{World}
use peer_net.Loop.{Step, Keeps, repeat_keeps}
use peer_net.Mio.{Token, readable, stop_listener, unknown_token}
use peer_net.Quic.Quiche.{Quiche, Packet, packet, nothing_left, recv_failed}
use peer_net.Quic.Connection.{QuicConnection, refreshed, flush}
use peer_net.Quic.Listener.{
  Listening, Listener, asks, handle_parsed, after_packet, handle_packet, packet_round, read_packets,
  stopped, handle_events, after_flush, flush_all, after_flushes, after_events, polled,
  listener_round, registered, listener_thread,
}
use peer_net.Quic.Listener.Kept.{
  Later, EntryLater, EntryLater-refl, EntryLater-trans, Kept, Ended, Kept-Ended, with_world,
  start-Kept, Fine, then-Kept, handle_parsed-Kept,
}

-- What the loop over the map leaves of it.
module _ {os : Os} (q : Quiche os) (l : Listener) where
  abbrev Passed :
      Dict SocketAddr QuicConnection
      → (Outcome (Unit {0}) × Dict SocketAddr QuicConnection) × World os
      → Type 0
  Passed d r =
      ((a : SocketAddr) → EntryLater (lookup a d) (lookup a r.0.1)) × (length r.0.1 ≡ length d)

  cons-Passed :
      (a : SocketAddr) (c c' : QuicConnection) (d d' : Dict SocketAddr QuicConnection)
      → Later c c'
      → ((b : SocketAddr) → EntryLater (lookup b d) (lookup b d'))
      → (b : SocketAddr) → EntryLater (lookup b ((a, c) ∷ d)) (lookup b ((a, c') ∷ d'))
  unfolding lookup
  cons-Passed a c c' d d' later rest b = elim (Bool-cases (b == a)) [
    | inl here ↦ rw here later
    | inr other ↦ rw other (rest b)
  ]

  refreshed-Later : (c : QuicConnection) (w : World os) → Later c (refreshed q c w)
  unfolding refreshed
  refreshed-Later c w = (refl, refl, refl, λ h. rw h refl)

  after_flush-Passed :
      (a : SocketAddr) (c c' : QuicConnection)
      (others : World os → (Outcome (Unit {0}) × Dict SocketAddr QuicConnection) × World os)
      (rest : Dict SocketAddr QuicConnection) (r : Outcome (Unit {0}) × World os)
      → Later c c'
      → ((w : World os) → Passed rest (others w))
      → Passed ((a, c) ∷ rest) (after_flush q l a c' others rest r)
  unfolding after_flush
  after_flush-Passed a c c' others rest (ok _, w) later passed =
      let (there, long) = passed w in (cons-Passed a c c' rest _ later there, omega (arith, long))
  after_flush-Passed a c c' others rest (err _, w) later passed =
      (cons-Passed a c c' rest rest later (λ b. EntryLater-refl (lookup b rest)), refl)
  after_flush-Passed a c c' others rest (panicked, w) later passed =
      (cons-Passed a c c' rest rest later (λ b. EntryLater-refl (lookup b rest)), refl)
  after_flush-Passed a c c' others rest (unfinished, w) later passed =
      (cons-Passed a c c' rest rest later (λ b. EntryLater-refl (lookup b rest)), refl)

  flush_all-Passed :
      (d : Dict SocketAddr QuicConnection) (w : World os) → Passed d (flush_all q l d w)
  unfolding flush_all lookup
  flush_all-Passed [] w = (λ a. tt, refl)
  flush_all-Passed ((a, c) ∷ rest) w =
      let now = refreshed q c w in
      after_flush-Passed a c now (flush_all q l rest) rest (flush q l.fuel l.socket a now w)
        (refreshed-Later c w) (flush_all-Passed rest)

module _ {os : Os} (q : Quiche os) (l : Listener) (s : Listening os) where
  abbrev FineStep : Step (Unit {0}) (Unit {0}) × Listening os → Type 0
  FineStep r = Keeps (λ _ t. Kept l s 0 t) (λ o t. Ended l s o t) r.0 r.1

  after_packet-Kept :
      (r : Outcome (Unit {0}) × Listening os) → Ended l s r.0 r.1 → FineStep (after_packet q l r)
  unfolding after_packet
  after_packet-Kept (ok _, x) kept = kept
  after_packet-Kept (err _, x) kept = kept
  after_packet-Kept (panicked, x) kept = kept
  after_packet-Kept (unfinished, x) kept = kept

  handle_packet-Kept : (r : Packet × Listening os) → Kept l s 0 r.1 → FineStep (handle_packet q l r)
  unfolding handle_packet
  handle_packet-Kept (nothing_left, x) kept = kept
  handle_packet-Kept (recv_failed, x) kept = inl kept
  handle_packet-Kept (packet bytes from, x) kept =
      let r = asks q l (q.parse_header bytes) x in
      after_packet-Kept (handle_parsed q l bytes from r.0 r.1)
        (handle_parsed-Kept q l s bytes from r.0 r.1 (with_world l s 0 x _ kept))

  read_packets-Kept : (x : Listening os) → Kept l s 0 x → Fine q l s (read_packets q l x)
  unfolding read_packets packet_round
  read_packets-Kept x kept =
      repeat_keeps (λ _ t. Kept l s 0 t) (λ o t. Ended l s o t) (packet_round q l)
        (λ _ t k. handle_packet-Kept (asks q l (q.recv_from l.socket) t) (with_world l s 0 t _ k))
        (λ _ t k. k) l.fuel tt x kept

  stopped-Kept : (r : Option String × Listening os) → Kept l s 0 r.1 → Fine q l s (stopped q l r)
  unfolding stopped
  stopped-Kept (none, x) kept = kept
  stopped-Kept (some _, x) kept = inl kept

  handle_events-Kept :
      (tokens : List Token) (x : Listening os)
      → Kept l s 0 x
      → Fine q l s (handle_events q l tokens x)
  unfolding handle_events
  handle_events-Kept [] x kept = kept
  handle_events-Kept (readable ∷ tokens) x kept =
      then-Kept q l s (read_packets q l x) (handle_events q l tokens) (read_packets-Kept x kept)
        (handle_events-Kept tokens)
  handle_events-Kept (stop_listener ∷ tokens) x kept =
      stopped-Kept (asks q l (q.mio.send_stop l.stop_peer_tx) x) (with_world l s 0 x _ kept)
  handle_events-Kept (unknown_token ∷ tokens) x kept = inl kept

  flushed-Kept :
      (x : Listening os)
      → Kept l s 0 x
      → FineStep (after_flushes q l (flush_all q l x.connections x.world) x)
  unfolding after_flushes
  flushed-Kept x kept =
      let r = flush_all q l x.connections x.world in
      let (later, long) = flush_all-Passed q l x.connections x.world in
      after_packet-Kept (r.0.0, record x { world = r.1; connections = r.0.1 })
        (Kept-Ended l s _ _ (record {
          entries = λ a.
              EntryLater-trans (lookup a s.connections) (lookup a x.connections) _ (kept.entries a)
                (later a);
          counted = omega (arith, kept.counted, long);
          own = kept.own;
        }))

  after_events-Kept :
      (r : Outcome Bool × Listening os) → Ended l s r.0 r.1 → FineStep (after_events q l r)
  unfolding after_events
  after_events-Kept (ok true, x) kept = kept
  after_events-Kept (ok false, x) kept = flushed-Kept x kept
  after_events-Kept (err _, x) kept = kept
  after_events-Kept (panicked, x) kept = kept
  after_events-Kept (unfinished, x) kept = kept

  polled-Kept : (r : Option (List Token) × Listening os) → Kept l s 0 r.1 → FineStep (polled q l r)
  unfolding polled
  polled-Kept (none, x) kept = inl kept
  polled-Kept (some tokens, x) kept =
      after_events-Kept (handle_events q l tokens x) (handle_events-Kept tokens x kept)

  registered-Kept :
      (rounds : ℕ) (r : Bool × Listening os) → Kept l s 0 r.1 → Fine q l s (registered q l rounds r)
  unfolding registered listener_round
  registered-Kept rounds (false, x) kept = inl kept
  registered-Kept rounds (true, x) kept =
      repeat_keeps (λ _ t. Kept l s 0 t) (λ o t. Ended l s o t) (listener_round q l)
        (λ _ t k. polled-Kept (asks q l (q.mio.poll l.poll) t) (with_world l s 0 t _ k))
        (λ _ t k. k) rounds tt x kept

  -- However long the thread of a QUIC listener runs alone, and however it ends: no entry leaves the map
  -- of connections, an entry keeps its handles, and stays established once it is. Each new entry comes
  -- with the thread of one peer, save one at most where the listener's thread panics, and the endpoint
  -- of each of these threads has the listener's own address.
  pub listener_thread-Kept :
      (rounds : ℕ) → Ended l s (listener_thread q l rounds s).0 (listener_thread q l rounds s).1
  unfolding listener_thread
  listener_thread-Kept rounds =
      registered-Kept rounds (asks q l (q.mio.register l.socket) s)
        (with_world l s 0 s _ (start-Kept l s))
