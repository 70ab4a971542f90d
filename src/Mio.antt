-- ===== src/Mio.antt =====
-- What the threads of listeners use of `mio`: a parameter beside `Os`. A poll, a socket and a stream are
-- found by numbers.
use peer_net.Base.{ℕ, String, Option, Bool, List}
use peer_net.Address.{SocketAddr}
use peer_net.Os.{Os}

-- The tokens of the events of a poll: the socket of the listener is readable, or the waker was used.
pub data Token : Type 0 where
  readable stop_listener unknown_token : Token

-- `TcpListener::accept`
pub data AcceptResult : Type 0 where
  stream_from : ℕ → SocketAddr → AcceptResult
  none_waits : AcceptResult
  accept_failed : String → AcceptResult

pub record Mio (os : Os) : Type 0 where
  -- `register` and `poll`; false or `none` is a failure
  pub register : ℕ → os.State → Bool × os.State
  pub poll : ℕ → os.State → Option (List Token) × os.State
  -- `deregister`, whose failure is only logged
  pub deregister : ℕ → os.State → os.State
  -- `TcpListener::bind`, and `accept` on the listener
  pub bind : SocketAddr → os.State → Option ℕ × os.State
  pub accept : ℕ → os.State → AcceptResult × os.State
  -- `send(())` on the channel that stops the peers
  pub send_stop : ℕ → os.State → Option String × os.State
