-- ===== src/Tcp/Listener/Thread.antt =====
-- The thread of a TCP listener of src/transports/tcp.rs, between its polls. The threads of peers that it
-- starts are a list of what they are started with.
pub mod Room
pub mod Limits
use peer_net.Base.{ℕ, String, Option, none, some, Bool, true, false, List, [], ◌∷◌}
use peer_net.Address.{SocketAddr}
use peer_net.Act.{Outcome, ok, err, panicked, unfinished, Act, pure, ◌>>=◌, ◌>>◌}
use peer_net.Config.{TcpTransportConfig}
use peer_net.Config.Category.{PeerNetCategoryInfo}
use peer_net.Mio.{
  Mio, Token, readable, stop_listener, unknown_token, AcceptResult, stream_from, none_waits,
  accept_failed,
}
use peer_net.Os.{Os}
use peer_net.World.{World, call, change}
use peer_net.Loop.{Step, stop, again, repeat}
use peer_net.Endpoint.{Endpoint}
use peer_net.Connections.{Shared}
use peer_net.Peer.{Handler}
use peer_net.Tcp.Listener.{Accepted, no_room, refused, started, accept_one}

pub record Serving (os : Os) (PeerId : Type 0) : Type 0 where
  pub shared : Shared os PeerId
  -- what the thread of each peer is started with, the last one first
  pub peers : List (Endpoint × (Option String × PeerNetCategoryInfo))

-- What the thread has; `fuel` is for the loop that accepts.
pub record Listener : Type 0 where
  pub address : SocketAddr
  pub poll : ℕ
  pub config : TcpTransportConfig
  pub total_bytes_received : ℕ
  pub total_bytes_sent : ℕ
  pub peer_stop_tx : ℕ
  pub fuel : ℕ

module _ {os : Os} {PeerId : Type 0} (mio : Mio os) (handler : Handler os PeerId)
    (l : Listener) where
  abbrev Round : Type 0
  Round = Step (Unit {0}) (Unit {0}) × Serving os PeerId

  abbrev pub asks :
      {A : Type 0} → (os.State → A × os.State) → Serving os PeerId → A × Serving os PeerId
  asks f x = (
    (call f x.shared.world).0,
    record x { shared = record x.shared { world = (call f x.shared.world).1 } },
  )

  -- `new_peer` panics where the thread of the peer cannot be made.
  peer_made :
      Endpoint × (Option String × PeerNetCategoryInfo)
      → Option ℕ × World os
      → Shared os PeerId
      → Serving os PeerId
      → Round
  peer_made peer (none, w) s x = (stop panicked, record x { shared = record s { world = w } })
  peer_made peer (some handle, w) s x =
      (again tt, record { shared = record s { world = w }; peers = peer ∷ x.peers })

  after_accept : Outcome Accepted × Shared os PeerId → Serving os PeerId → Round
  unfolding peer_made
  after_accept (ok no_room, s) x = (again tt, record x { shared = s })
  after_accept (ok refused, s) x = (again tt, record x { shared = s })
  after_accept (ok (started endpoint category info), s) x =
      peer_made (endpoint, (category, info)) (call os.spawn s.world) s x
  after_accept (err e, s) x = (stop (err e), record x { shared = s })
  after_accept (panicked, s) x = (stop panicked, record x { shared = s })
  after_accept (unfinished, s) x = (stop unfinished, record x { shared = s })

  pub handle_accept : AcceptResult × Serving os PeerId → Round
  unfolding after_accept
  handle_accept (stream_from stream address, x) =
      after_accept
        (accept_one handler l.config l.total_bytes_received l.total_bytes_sent stream address
          (record x.shared { world = change (mio.deregister stream) x.shared.world }))
        x
  handle_accept (none_waits, x) = (stop (ok tt), x)
  handle_accept (accept_failed text, x) = (again tt, x)

  accept_round : ℕ → Unit {0} → Serving os PeerId → Round
  unfolding handle_accept
  accept_round server _ x = handle_accept (asks (mio.accept server) x)

  -- The loop that accepts what waits at the socket.
  unfoldable pub accept_all : ℕ → ℕ → Act (Serving os PeerId) (Unit {0})
  unfolding accept_round
  accept_all fuel server = repeat fuel (accept_round server) tt

  stopped : Option String × Serving os PeerId → Outcome Bool × Serving os PeerId
  stopped (none, x) = (ok true, x)
  stopped (some _, x) = (panicked, x)

  -- The events of a poll; true where the listener is to end.
  handle_events : ℕ → List Token → Act (Serving os PeerId) Bool
  unfolding stopped
  handle_events server [] = pure false
  handle_events server (readable ∷ tokens) = accept_all l.fuel server >> handle_events server tokens
  handle_events server (stop_listener ∷ tokens) =
      λ x. stopped (asks (mio.send_stop l.peer_stop_tx) x)
  handle_events server (unknown_token ∷ tokens) = handle_events server tokens

  after_events : Outcome Bool × Serving os PeerId → Round
  after_events (ok true, x) = (stop (ok tt), x)
  after_events (ok false, x) = (again tt, x)
  after_events (err e, x) = (stop (err e), x)
  after_events (panicked, x) = (stop panicked, x)
  after_events (unfinished, x) = (stop unfinished, x)

  polled : ℕ → Option (List Token) × Serving os PeerId → Round
  unfolding handle_events after_events
  polled server (none, x) = (stop panicked, x)
  polled server (some tokens, x) = after_events (handle_events server tokens x)

  listener_round : ℕ → Unit {0} → Serving os PeerId → Round
  unfolding polled
  listener_round server _ x = polled server (asks (mio.poll l.poll) x)

  registered : ℕ → ℕ → Bool × Serving os PeerId → Outcome (Unit {0}) × Serving os PeerId
  unfolding listener_round
  registered rounds server (false, x) = (panicked, x)
  registered rounds server (true, x) = repeat rounds (listener_round server) tt x

  bound : ℕ → Option ℕ × Serving os PeerId → Outcome (Unit {0}) × Serving os PeerId
  unfolding registered
  bound rounds (none, x) = (panicked, x)
  bound rounds (some server, x) = registered rounds server (asks (mio.register server) x)

  -- The thread, for a number of rounds.
  unfoldable pub listener_thread : ℕ → Act (Serving os PeerId) (Unit {0})
  unfolding bound
  listener_thread rounds x = bound rounds (asks (mio.bind l.address) x)
