-- ===== src/Peer/Loops.antt =====
-- The two loops of a confirmed peer in `new_peer` of src/peer.rs: the reading thread, and the writing
-- thread, which prefers messages of high priority. Each loop takes fuel, since it may run for ever.
pub mod Ends
pub mod Prompt
pub mod Order
pub mod Talk
use peer_net.Base.{
  ℕ, String, Option, none, some, Bool, true, false, List, [], ◌∷◌, Eq, if◌then◌else◌,
}
use peer_net.Error.{PeerNetError, PeerNetErrorData, time_out}
use peer_net.Act.{Outcome, ok, err, panicked, unfinished, Act}
use peer_net.Loop.{Step, stop, again, repeat}
use peer_net.Os.{Os, TryRecv, received, is_empty, is_disconnected, Ready, stopped, low, high}
use peer_net.World.{World, call}
use peer_net.Endpoint.Dispatch
use peer_net.Connections.{Shared, on_world, remove_connection}
use peer_net.Peer.{Handler, Running}

-- `error_type == PeerNetError::TimeOut`
abbrev is_time_out : PeerNetError → Bool
is_time_out time_out = true
is_time_out _ = false

abbrev Round : Os → Type 0 → Type 0
Round os PeerId = Step (Unit {0}) (Unit {0}) × Shared os PeerId

module _ {os : Os} {PeerId : Type 0} ⦃e : Eq PeerId⦄ where
  after_removal :
      Step (Unit {0}) (Unit {0}) → Outcome (Unit {0}) × Shared os PeerId → Round os PeerId
  after_removal next (ok _, s) = (next, s)
  after_removal next (err x, s) = (stop (err x), s)
  after_removal next (panicked, s) = (stop panicked, s)
  after_removal next (unfinished, s) = (stop unfinished, s)

  -- The peer is taken out of the table, and the loop goes on as `next` says.
  drop_peer : PeerId → Step (Unit {0}) (Unit {0}) → Shared os PeerId → Round os PeerId
  unfolding after_removal
  drop_peer id next s = after_removal next (remove_connection id s)

  -- A message handler that fails costs the peer its entry, and the loop goes on.
  after_handle : PeerId → Outcome (Unit {0}) → Shared os PeerId → Round os PeerId
  unfolding drop_peer
  after_handle id (ok _) s = (again tt, s)
  after_handle id (err _) s = drop_peer id (again tt) s
  after_handle id panicked s = (stop panicked, s)
  after_handle id unfinished s = (stop unfinished, s)

  after_receive : Handler os PeerId → PeerId → Outcome (List ℕ) → Shared os PeerId → Round os PeerId
  unfolding drop_peer after_handle
  after_receive handler id (ok []) s = drop_peer id (stop (ok tt)) s
  after_receive handler id (ok (b ∷ bs)) s =
      let r = on_world (handler.handle (b ∷ bs) id) s in after_handle id r.0 r.1
  after_receive handler id (err x) s =
      if is_time_out x.error_type then (again tt, s) else drop_peer id (stop (ok tt)) s
  after_receive handler id panicked s = (stop panicked, s)
  after_receive handler id unfinished s = (stop unfinished, s)

  -- A round of the reader. Where it stops after an empty message it then waits for the writer.
  reader_round :
      ℕ → Handler os PeerId → Running PeerId → Unit {0} → Shared os PeerId → Round os PeerId
  unfolding after_receive
  reader_round fuel handler peer _ s =
      let r = on_world (Dispatch.receive fuel peer.endpoint) s in
      after_receive handler peer.peer_id r.0 r.1

  unfoldable pub reader :
      ℕ → ℕ → Handler os PeerId → Running PeerId → Act (Shared os PeerId) (Unit {0})
  unfolding reader_round
  reader rounds fuel handler peer s = repeat rounds (reader_round fuel handler peer) tt s

  after_send : PeerId → Outcome (Unit {0}) → Shared os PeerId → Round os PeerId
  unfolding drop_peer
  after_send id (ok _) s = (again tt, s)
  after_send id (err _) s = drop_peer id (stop (ok tt)) s
  after_send id panicked s = (stop panicked, s)
  after_send id unfinished s = (stop unfinished, s)

  write_message : ℕ → Running PeerId → List ℕ → Shared os PeerId → Round os PeerId
  unfolding after_send
  write_message fuel peer bytes s =
      let r = on_world (Dispatch.send fuel peer.write_endpoint bytes) s in
      after_send peer.peer_id r.0 r.1

  -- The `select!`, where no message of high priority was waiting.
  after_select : ℕ → Running PeerId → Ready → Shared os PeerId → Round os PeerId
  unfolding write_message
  after_select fuel peer stopped s = (stop (ok tt), s)
  after_select fuel peer (low none) s = (stop (ok tt), s)
  after_select fuel peer (low (some bytes)) s = write_message fuel peer bytes s
  after_select fuel peer (high none) s = (stop (ok tt), s)
  after_select fuel peer (high (some bytes)) s = write_message fuel peer bytes s

  after_try : ℕ → ℕ → Running PeerId → TryRecv → Shared os PeerId → Round os PeerId
  unfolding write_message after_select
  after_try fuel peer_stop peer (received bytes) s = write_message fuel peer bytes s
  after_try fuel peer_stop peer is_empty s =
      let r = call (os.select peer_stop peer.low_write_rx peer.high_write_rx) s.world in
      after_select fuel peer r.0 (record s { world = r.1 })
  after_try fuel peer_stop peer is_disconnected s = (stop (ok tt), s)

  pub writer_round : ℕ → ℕ → Running PeerId → Unit {0} → Shared os PeerId → Round os PeerId
  unfolding after_try
  writer_round fuel peer_stop peer _ s =
      let r = call (os.try_recv peer.high_write_rx) s.world in
      after_try fuel peer_stop peer r.0 (record s { world = r.1 })

  unfoldable pub writer : ℕ → ℕ → ℕ → Running PeerId → Act (Shared os PeerId) (Unit {0})
  unfolding writer_round
  writer rounds fuel peer_stop peer s = repeat rounds (writer_round fuel peer_stop peer) tt s
