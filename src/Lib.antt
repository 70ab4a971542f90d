-- ===== src/Lib.antt =====
-- PeerNet is a library for peer-to-peer programs: it listens for connections, opens connections,
-- gives each peer a thread that performs the program's handshake and then reads and writes messages,
-- and keeps a table of connections under limits per transport, per category and per address.
--
-- The threads share one table, `ActiveConnections`, behind a lock. A TCP listener accepts a
-- connection if the transport has room, puts its address on the queue of pending ones, and starts a
-- peer's thread. This thread takes the address off the queue and adds the peer to the table, if the
-- limits allow it. Its reader and its writer take the peer out again when the connection fails.
-- Messages go over TCP as frames, a size of four bytes and then the bytes.
--
-- Which file models which part:
--   Connections      `ActiveConnections` of src/network_manager.rs: the checks before and after the
--                    handshake, `confirm_connection`, `remove_connection`, `compute_counters`
--   Address          `to_canonical` of src/network_manager.rs
--   PeerConnection   `SendChannels` and `PeerConnection` of src/peer.rs
--   Peer             `new_peer` of src/peer.rs, the thread up to its loops
--   Peer/Loops       `new_peer`, its reading and its writing loop
--   Config           src/config.rs, and the records of src/transports/tcp.rs and
--                    src/transports/quic.rs
--   Config/Category  the search for the category of an address in src/transports/tcp.rs
--   Error            src/error.rs, and Error/Display its texts
--   Endpoint         src/transports/endpoint.rs
--   Tcp/Exact        `read_exact_timeout` and `write_exact_timeout` of src/transports/tcp.rs
--   Tcp/Framing      `send`, `send_timeout` and `receive` of src/transports/tcp.rs
--   Tcp/Listener     what the listener of src/transports/tcp.rs does with an accepted connection
--   Tcp/Listener/System
--                    the critical sections of a listener and of the threads of peers, interleaved
--   Tcp/Transport    `TcpTransport` of src/transports/tcp.rs: the start and the stop of listeners, `Drop`,
--                    and outgoing connections
--   Tcp/Listener/Thread
--                    the thread of a listener of src/transports/tcp.rs: its polls, its events and the loop
--                    that accepts
--   Quic/Transport   `QuicTransport` of src/transports/quic.rs, up to the threads that it starts
--   Quic/Listener    the thread of a listener of src/transports/quic.rs: the packets that it reads and the
--                    map of connections
--   Quic/Connection  a connection of that map: what goes from it to the channel of its peer, and from the
--                    channel to the connection and the socket
--   Quic/Outgoing    the thread that `try_connect` of src/transports/quic.rs starts
--   InternalTransport
--                    the choice between the transports in src/transports/mod.rs, and its calls on endpoints
--   Manager          `PeerNetManager` of src/network_manager.rs
--   Quic/Channel     `send`, `send_timeout`, `receive` and `shutdown` of src/transports/quic.rs
-- Base has the shared helpers, Act the actions, Loop the loops, World the state, and Os the parameters.
--
-- How code becomes definitions. A call is an action: a function of the state that gives an outcome
-- and a new state. An outcome is a value, an error of the program, a panic, or `unfinished`, where the
-- fuel of a loop is spent. The state is `World`, which has the state of the operating system and the
-- shared counters of bytes, a counter being an address in it, or `Shared`, which has the table too. A
-- hash map is a list of entries without repeated keys, a set is a list. Sizes are natural numbers; a
-- size on the wire is a u32, with its bound written out.
--
-- Fuel. A round of `read_exact_timeout` or `write_exact_timeout` moves at least one byte, or time
-- passes, or the call ends, so fuel beyond the number of bytes and the time together is enough. The
-- loops of a peer and of a listener may run for ever, so what is said of them holds for any number of
-- rounds. A loop over the datagrams of a QUIC connection ends with fuel for each of them.
--
-- Parameters. `Os` stands for the clock, for streams behind the rate limiter, and for channels; what
-- the TCP functions rely on is `IsStream` in Tcp/Stream: a read takes bytes off the front of the input,
-- a write puts a part of its bytes out, a call that waits lets time pass. `Handler` stands for the
-- handshake, the fallback and the message handler, which belong to the program that uses the library.
-- `Mio` stands for polls and sockets of `mio`, and `Quiche` for the connections of `quiche` with
-- UDP; what the QUIC loops rely on is `IsOrdered` in Quic/Connection/Order: datagrams and messages
-- are taken in order. Four more assumptions stand for good conditions: `IsPrompt` in
-- Tcp/Exact/Prompt, a stream that gives at once what it has; `HasRoom` in Tcp/Exact/Room, a stream
-- that takes at once what it is given; `IsAside` in Peer/Loops/Order, channels apart from the
-- stream; and `IsTaking` in Peer/Loops/Prompt, a handler that takes every message.
--
-- Threads. The thread that a call starts is a handle in the state of that call; what the thread does is
-- modelled as functions of their own (`listener_thread`, `connect`, `connect_thread`, `setup`, `reader`,
-- `writer`), each alone on the state, and, for a TCP listener with its peers, as events of a schedule.
-- A thread that cannot be made is a panic of what makes it: `std::thread::Builder` and `std::thread::spawn`
-- are one parameter, `spawn` of `Os`.
-- The map of QUIC connections is the part of the state of its listener.
--
-- Not modelled: the lock of the map of QUIC connections and the listeners that wait for it, the thread
-- that looks for deadlocks (a feature for debugging), logging, and the traits that the program
-- implements, whose methods are parameters.
pub mod Base
pub mod Address
pub mod Error
pub mod Act
pub mod Config
pub mod Os
pub mod Mio
pub mod World
pub mod Loop
pub mod Endpoint
pub mod Transport
pub mod PeerConnection
pub mod Connections
pub mod Peer
pub mod Tcp
pub mod Quic
pub mod InternalTransport
pub mod Manager
pub mod Tests
