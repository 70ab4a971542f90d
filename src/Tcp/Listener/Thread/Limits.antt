-- ===== src/Tcp/Listener/Thread/Limits.antt =====
-- What the thread of a TCP listener does to the table, and where its loop that accepts does not end.
use peer_net.Base.{
  ℕ, zero, suc, ◌≡◌, refl, String, Option, none, some, Bool, true, false, List, [], ◌∷◌,
}
use peer_net.Address.{addr_eq}
use peer_net.Act.{Outcome, ok, err, panicked, unfinished, ◌>>◌}
use peer_net.Mio.{Mio, Token, readable, stop_listener, unknown_token, accept_failed}
use peer_net.Os.{Os}
use peer_net.Loop.{repeat, repeat_keeps}
use peer_net.PeerConnection.{connection_type_eq}
use peer_net.Connections.{ActiveConnections}
use peer_net.Peer.{Handler}
use peer_net.Tcp.Listener.Thread.{
  Serving, Listener, asks, handle_accept, accept_round, accept_all, stopped, handle_events,
  after_events, polled, listener_round, registered, bound, listener_thread,
}
use peer_net.Tcp.Listener.Thread.Room.{Within, start-Within, Fine, FineStep, handle_accept-Within}

module _ {os : Os} {PeerId : Type 0} (mio : Mio os) (handler : Handler os PeerId) (l : Listener)
    (a : ActiveConnections PeerId) where
  abbrev FineResult : {A : Type 0} → Outcome A × Serving os PeerId → Type 0
  FineResult r = Fine mio handler l a r.1.shared.active

  accept_all-Within :
      (fuel server : ℕ) (x : Serving os PeerId)
      → Fine mio handler l a x.shared.active
      → FineResult (accept_all mio handler l fuel server x)
  unfolding accept_all accept_round
  accept_all-Within fuel server x within =
      repeat_keeps (λ _ y. Fine mio handler l a y.shared.active)
        (λ _ y. Fine mio handler l a y.shared.active) (accept_round mio handler l server)
        (λ _ y k. handle_accept-Within mio handler l a (asks mio handler l (mio.accept server) y) k)
        (λ _ y k. k) fuel tt x within

  then-Within :
      (s : Serving os PeerId) (r : Outcome (Unit {0}) × Serving os PeerId)
      (k : Serving os PeerId → Outcome Bool × Serving os PeerId)
      → FineResult r
      → ((x : Serving os PeerId) → Fine mio handler l a x.shared.active → FineResult (k x))
      → FineResult (((λ (_ : Serving os PeerId). r) >> k) s)
  then-Within s (ok _, x) k within next = next x within
  then-Within s (err _, x) k within next = within
  then-Within s (panicked, x) k within next = within
  then-Within s (unfinished, x) k within next = within

  stopped-Fine :
      (r : Option String × Serving os PeerId)
      → Fine mio handler l a r.1.shared.active
      → FineResult (stopped mio handler l r)
  unfolding stopped
  stopped-Fine (none, x) within = within
  stopped-Fine (some _, x) within = within

  handle_events-Within :
      (server : ℕ) (tokens : List Token) (x : Serving os PeerId)
      → Fine mio handler l a x.shared.active
      → FineResult (handle_events mio handler l server tokens x)
  unfolding handle_events
  handle_events-Within server [] x within = within
  handle_events-Within server (readable ∷ tokens) x within =
      then-Within x (accept_all mio handler l l.fuel server x)
        (handle_events mio handler l server tokens) (accept_all-Within l.fuel server x within)
        (handle_events-Within server tokens)
  handle_events-Within server (stop_listener ∷ tokens) x within =
      stopped-Fine (asks mio handler l (mio.send_stop l.peer_stop_tx) x) within
  handle_events-Within server (unknown_token ∷ tokens) x within =
      handle_events-Within server tokens x within

  after_events-Within :
      (r : Outcome Bool × Serving os PeerId)
      → FineResult r
      → FineStep mio handler l a (after_events mio handler l r)
  unfolding after_events
  after_events-Within (ok true, x) within = within
  after_events-Within (ok false, x) within = within
  after_events-Within (err _, x) within = within
  after_events-Within (panicked, x) within = within
  after_events-Within (unfinished, x) within = within

  polled-Within :
      (server : ℕ) (r : Option (List Token) × Serving os PeerId)
      → Fine mio handler l a r.1.shared.active
      → FineStep mio handler l a (polled mio handler l server r)
  unfolding polled
  polled-Within server (none, x) within = within
  polled-Within server (some tokens, x) within =
      after_events-Within (handle_events mio handler l server tokens x)
        (handle_events-Within server tokens x within)

  registered-Within :
      (rounds server : ℕ) (r : Bool × Serving os PeerId)
      → Fine mio handler l a r.1.shared.active
      → FineResult (registered mio handler l rounds server r)
  unfolding registered listener_round
  registered-Within rounds server (false, x) within = within
  registered-Within rounds server (true, x) within =
      repeat_keeps (λ _ y. Fine mio handler l a y.shared.active)
        (λ _ y. Fine mio handler l a y.shared.active) (listener_round mio handler l server)
        (λ _ y k. polled-Within server (asks mio handler l (mio.poll l.poll) y) k) (λ _ y k. k)
        rounds tt x within

  bound-Within :
      (rounds : ℕ) (r : Option ℕ × Serving os PeerId)
      → Fine mio handler l a r.1.shared.active
      → FineResult (bound mio handler l rounds r)
  unfolding bound
  bound-Within rounds (none, x) within = within
  bound-Within rounds (some server, x) within =
      registered-Within rounds server (asks mio handler l (mio.register server) x) within

module _ {os : Os} {PeerId : Type 0} (mio : Mio os) (handler : Handler os PeerId)
    (l : Listener) where
  -- However long the thread of a TCP listener runs alone, and however it ends: it changes no
  -- connection and no outgoing address, and where the incoming connections with the queue were within
  -- the limit of the transport, they still are.
  pub listener_thread-Within :
      (rounds : ℕ) (x : Serving os PeerId)
      → Within l.config x.shared.active (listener_thread mio handler l rounds x).1.shared.active
  unfolding listener_thread
  listener_thread-Within rounds x =
      bound-Within mio handler l x.shared.active rounds (asks mio handler l (mio.bind l.address) x)
        (start-Within l.config x.shared.active)

  -- Where accepting fails each time, with an error other than that none waits, the loop that accepts
  -- goes on for ever: it does not end with any fuel, and the listener never polls again.
  pub accept_all_spins :
      (server : ℕ)
      → ((s : os.State) → (text : String) × ((mio.accept server s).0 ≡ accept_failed text))
      → (fuel : ℕ) (x : Serving os PeerId) → (accept_all mio handler l fuel server x).0 ≡ unfinished
  unfolding accept_all accept_round handle_accept repeat
  accept_all_spins server fails zero x = refl
  accept_all_spins server fails (suc fuel) x =
      let (text, failed) = fails x.shared.world.state in
      rw failed (accept_all_spins server fails fuel _)
