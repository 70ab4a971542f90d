-- ===== src/Peer.antt =====
-- `new_peer` of src/peer.rs: the thread of a peer. What it does while it holds the lock of the table is
-- one action; between two of these other threads may run. The handshake and the message handler belong
-- to the program that uses the library and are parameters; so is the peer's own id, `own`.
pub mod Setup
pub mod Queues
pub mod Outcomes
pub mod Loops
use peer_net.Base.{
  ℕ, String, Option, none, some, Bool, true, false, List, Eq, ◌==◌, set_remove, if◌then◌else◌,
}
use peer_net.Base.Dict.{Dict}
use peer_net.Address.{SocketAddr, addr_eq}
use peer_net.Act.{Outcome, ok, err, panicked, unfinished, Act, pure, modify, ◌>>=◌, ◌>>◌, attempt}
use peer_net.Config.Category.{PeerNetCategoryInfo}
use peer_net.Os.{Os}
use peer_net.World.{World, call}
use peer_net.Endpoint.{Endpoint, get_target_addr, get_data_channel_size}
use peer_net.Endpoint.Dispatch
use peer_net.PeerConnection.{PeerConnectionType, in_, out, SendChannels}
use peer_net.Transport.{TransportType}
use peer_net.Connections.{
  ActiveConnections, Shared, on_active, on_world, compute_counters, confirm_connection,
  remove_connection,
}

-- The program's part in a connection.
pub record Handler (os : Os) (PeerId : Type 0) : Type 0 where
  -- `context.get_peer_id()`
  pub own : PeerId
  -- `perform_handshake`, which acts through the endpoint and does not replace it
  pub perform_handshake : Endpoint → Dict SocketAddr TransportType → Act (World os) PeerId
  -- `fallback_function`
  pub fallback : Endpoint → Dict SocketAddr TransportType → Act (World os) (Unit {0})
  -- `MessagesHandler::handle`
  pub handle : List ℕ → PeerId → Act (World os) (Unit {0})

-- The threads of a confirmed peer: the reader has `endpoint`, the writer the rest.
pub record Running (PeerId : Type 0) : Type 0 where
  pub peer_id : PeerId
  pub endpoint : Endpoint
  pub write_endpoint : Endpoint
  pub low_write_rx : ℕ
  pub high_write_rx : ℕ

-- The address of the endpoint is taken off the queue of its type.
unfoldable pub leave_queue :
    {PeerId : Type 0}
    → PeerConnectionType
    → Endpoint
    → ActiveConnections PeerId
    → ActiveConnections PeerId
leave_queue in_ endpoint active = record active {
  in_connection_queue = set_remove (get_target_addr endpoint) active.in_connection_queue;
}
leave_queue out endpoint active = record active {
  out_connection_queue = set_remove (get_target_addr endpoint) active.out_connection_queue;
}

module _ {os : Os} {PeerId : Type 0} ⦃e : Eq PeerId⦄ (handler : Handler os PeerId)
    (endpoint : Endpoint) (kind : PeerConnectionType) (category : Option String)
    (info : PeerNetCategoryInfo) where
  bounded : ℕ → Act (Shared os PeerId) (ℕ × ℕ)
  bounded size s = let r = call (os.bounded size) s.world in (ok r.0, record s { world = r.1 })

  -- `std::thread::spawn` for the writing thread panics where the thread cannot be made.
  writer_made :
      Running PeerId → Option ℕ × World os → Act (Shared os PeerId) (Option (Running PeerId))
  writer_made running (none, w) s = (panicked, record s { world = w })
  writer_made running (some handle, w) s = (ok (some running), record s { world = w })

  -- The second clone of the endpoint, for the writing thread.
  start_writer :
      PeerId → ℕ → ℕ → Outcome Endpoint → Act (Shared os PeerId) (Option (Running PeerId))
  unfolding writer_made
  start_writer id low_rx high_rx (ok write_endpoint) s =
      writer_made
        (record {
          peer_id = id;
          endpoint = endpoint;
          write_endpoint = write_endpoint;
          low_write_rx = low_rx;
          high_write_rx = high_rx;
        })
        (call os.spawn s.world) s
  start_writer id low_rx high_rx (err _) s = (remove_connection id >> pure none) s
  start_writer id low_rx high_rx panicked s = (panicked, s)
  start_writer id low_rx high_rx unfinished s = (unfinished, s)

  -- The peer is confirmed, unless it is this peer itself.
  unfoldable pub admit : PeerId → Endpoint → SendChannels → Act (Shared os PeerId) Bool
  admit id endpoint_connection channels =
      if id == handler.own
      then pure false
      else confirm_connection id endpoint_connection channels kind category info

  if_accepted : PeerId → ℕ → ℕ → Bool → Act (Shared os PeerId) (Option (Running PeerId))
  unfolding start_writer
  if_accepted id low_rx high_rx true = do
    write_endpoint ← attempt (on_world (Dispatch.try_clone endpoint))
    start_writer id low_rx high_rx write_endpoint
  if_accepted id low_rx high_rx false = pure none

  -- With the outcome of the first clone, which goes into the table.
  after_clone :
      PeerId → ℕ × ℕ → ℕ × ℕ → Outcome Endpoint → Act (Shared os PeerId) (Option (Running PeerId))
  unfolding admit if_accepted
  after_clone id (low_tx, low_rx) (high_tx, high_rx) (ok endpoint_connection) = do
    modify (on_active (leave_queue kind endpoint))
    accepted ←
        admit id endpoint_connection (record { low_priority = low_tx; high_priority = high_tx })
    if_accepted id low_rx high_rx accepted
  after_clone id low high (err _) = do
    modify (on_active (leave_queue kind endpoint))
    remove_connection id
    pure none
  after_clone id low high panicked = λ s. (panicked, s)
  after_clone id low high unfinished = λ s. (unfinished, s)

  after_handshake : Outcome PeerId → Act (Shared os PeerId) (Option (Running PeerId))
  unfolding bounded after_clone
  after_handshake (ok id) = do
    low ← bounded (get_data_channel_size endpoint)
    high ← bounded (get_data_channel_size endpoint)
    endpoint_connection ← attempt (on_world (Dispatch.try_clone endpoint))
    after_clone id low high endpoint_connection
  after_handshake (err _) = do
    modify (on_active (λ active. compute_counters (leave_queue kind endpoint active)))
    pure none
  after_handshake panicked = λ s. (panicked, s)
  after_handshake unfinished = λ s. (unfinished, s)

  -- The thread up to its two loops; `none` is a thread that returned.
  unfoldable pub setup : Act (Shared os PeerId) (Option (Running PeerId))
  unfolding after_handshake
  setup s =
      (attempt (on_world (handler.perform_handshake endpoint s.active.listeners))
          >>= after_handshake)
        s

  thread_made : Option ℕ × World os → Act (Shared os PeerId) (Option (Running PeerId))
  unfolding setup
  thread_made (none, w) s = (panicked, record s { world = w })
  thread_made (some handle, w) s = setup (record s { world = w })

  -- `new_peer` and then the thread that it starts, up to its loops, with no other thread between. Where
  -- the thread cannot be made, `new_peer` itself panics.
  unfoldable pub new_peer : Act (Shared os PeerId) (Option (Running PeerId))
  unfolding thread_made
  new_peer s = thread_made (call os.spawn s.world) s
