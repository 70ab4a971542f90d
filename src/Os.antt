-- ===== src/Os.antt =====
-- What the program uses of the operating system and of other crates: the clock, streams behind the
-- rate limiter of `stream_limiter`, and the channels of `crossbeam`. All of it is a parameter, `os`.
-- A handle is a number: a stream with its limiter, or one end of a channel.
use peer_net.Base.{ℕ, String, Option, List, ◌⊎◌}
use peer_net.Address.{SocketAddr}
use peer_net.Error.{PeerNetErrorData}

pub data ErrorKind : Type 0 where
  would_block timed_out interrupted other : ErrorKind

-- `Ok(n)` comes with the `n` bytes that are now at the front of the buffer.
pub data ReadResult : Type 0 where
  got : List ℕ → ReadResult
  read_failed : ErrorKind → String → ReadResult

pub data WriteResult : Type 0 where
  wrote : ℕ → WriteResult
  write_failed : ErrorKind → String → WriteResult

-- `try_recv` on a channel of bytes
pub data TryRecv : Type 0 where
  received : List ℕ → TryRecv
  is_empty : TryRecv
  is_disconnected : TryRecv

-- What the `select!` of a writing thread found ready: the stop channel, or one of the two channels of
-- messages, with `none` where that channel is disconnected.
pub data Ready : Type 0 where
  stopped : Ready
  low : Option (List ℕ) → Ready
  high : Option (List ℕ) → Ready

-- What `JoinHandle::join` gives for a thread of type `PeerNetResult<()>`.
pub data Joined : Type 0 where
  returned : Option PeerNetErrorData → Joined
  thread_panicked : Joined

pub data QuicInternalMessage : Type 0 where
  payload : List ℕ → QuicInternalMessage
  shutdown : QuicInternalMessage

-- Where a call can fail with an error whose text the program keeps, it gives that text.
pub record Os : Type 1 where
  pub State : Type 0
  -- `Instant::now`
  pub now : State → ℕ
  -- `Limiter::read` into a buffer of the given length, and `Limiter::write`
  pub read : ℕ → ℕ → State → ReadResult × State
  pub write : ℕ → List ℕ → State → WriteResult × State
  -- `LimiterOptions::set_timeout` on the limiter's options for reading and for writing
  pub limit_read : ℕ → ℕ → State → State
  pub limit_write : ℕ → ℕ → State → State
  -- `TcpStream::set_read_timeout` and its like
  pub set_read_timeout : ℕ → ℕ → State → Option String × State
  pub set_write_timeout : ℕ → ℕ → State → Option String × State
  -- `TcpStream::set_nonblocking(false)`, whose failure is only logged
  pub set_nonblocking : ℕ → State → State
  -- `TcpStream::shutdown(Both)`, whose result the program ignores
  pub shutdown_stream : ℕ → State → State
  -- `TcpStream::try_clone`, and a limiter about the clone
  pub clone_stream : ℕ → State → (String ⊎ ℕ) × State
  -- crossbeam channels of bytes and of `QuicInternalMessage`
  pub send_bytes : ℕ → List ℕ → State → Option String × State
  pub try_send_bytes : ℕ → List ℕ → State → Option String × State
  pub recv_bytes : ℕ → State → (String ⊎ List ℕ) × State
  pub bounded : ℕ → State → (ℕ × ℕ) × State
  pub try_recv : ℕ → State → TryRecv × State
  -- `select!` over the stop channel, the low and the high channel, in this order
  pub select : ℕ → ℕ → ℕ → State → Ready × State
  pub send_internal : ℕ → QuicInternalMessage → State → Option String × State
  pub send_internal_timeout : ℕ → QuicInternalMessage → ℕ → State → Option String × State
  pub recv_internal : ℕ → State → (String ⊎ QuicInternalMessage) × State
  -- `format!("{:?}", n)`
  pub show : ℕ → String
  -- `Poll::new`, and `Waker::new` on it
  pub poll_new : State → Option String × State
  pub waker_new : State → (String ⊎ ℕ) × State
  pub wake : ℕ → State → Option String × State
  -- `Builder::spawn` or `thread::spawn`: the handle of the thread, if it can be made
  pub spawn : State → Option ℕ × State
  pub join : ℕ → State → Joined × State
  -- `TcpStream::connect_timeout`
  pub connect_timeout : SocketAddr → ℕ → State → (String ⊎ ℕ) × State
  -- `UdpSocket::bind`, `set_nonblocking(false)` and `try_clone`
  pub bind_udp : SocketAddr → State → Option ℕ × State
  pub udp_blocking : ℕ → State → Option String × State
  pub clone_udp : ℕ → State → Option ℕ × State
  -- `quiche::Config::new`, `load_cert_chain_from_pem_file`, `load_priv_key_from_pem_file` and
  -- `set_application_protos`
  pub quiche_config : State → Option String × State
  pub load_cert_chain : State → Option String × State
  pub load_priv_key : State → Option String × State
  pub set_application_protos : State → Option String × State
  -- `std::thread::sleep`, in milliseconds
  pub sleep : ℕ → State → State
  -- `unbounded`, a new channel
  pub unbounded : State → (ℕ × ℕ) × State
  -- `format!("version: {:?}", quiche::PROTOCOL_VERSION)`
  pub show_version : String
  -- `format!("address: {}", address)`, and with the timeout
  pub show_address : SocketAddr → String
  pub show_attempt : SocketAddr → ℕ → String
