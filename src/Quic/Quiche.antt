-- ===== src/Quic/Quiche.antt =====
-- What the threads of src/transports/quic.rs use of `quiche` and of UDP sockets: a parameter beside `Os`. A
-- connection of `quiche` and a socket are found by numbers.
use peer_net.Base.{ℕ, String, Option, Bool, List, ◌⊎◌}
use peer_net.Address.{SocketAddr}
use peer_net.Mio.{Mio}
use peer_net.Os.{Os, QuicInternalMessage}

-- `recv_from`, with `nothing_left` where it would block
pub data Packet : Type 0 where
  packet : List ℕ → SocketAddr → Packet
  nothing_left recv_failed : Packet

-- `quiche::Header`: whether its type is `Initial`, and its `scid`
pub record Header : Type 0 where
  pub is_initial : Bool
  pub scid : List ℕ

-- `Connection::send`: a packet and the address that it goes to
pub data Outgoing : Type 0 where
  write : List ℕ → SocketAddr → Outgoing
  done : Outgoing
  send_failed : String → Outgoing

-- `send_to` on a socket
pub data SentTo : Type 0 where
  sent_to : SentTo
  to_would_block to_failed : String → SentTo

pub record Quiche (os : Os) : Type 0 where
  pub mio : Mio os
  pub recv_from : ℕ → os.State → Packet × os.State
  -- `Header::from_slice` on the buffer of the thread, which is in the state and begins with the packet
  pub parse_header : List ℕ → os.State → Option Header × os.State
  -- `quiche::accept` and `quiche::connect`, with the local and the remote address
  pub accept : List ℕ → SocketAddr → SocketAddr → os.State → (String ⊎ ℕ) × os.State
  pub connect : SocketAddr → SocketAddr → os.State → (String ⊎ ℕ) × os.State
  -- methods of a connection; `recv` has the addresses that the packet came from and went to
  pub recv : ℕ → List ℕ → SocketAddr → SocketAddr → os.State → Option String × os.State
  pub dgram_recv : ℕ → os.State → Option (List ℕ) × os.State
  pub dgram_send : ℕ → List ℕ → os.State → os.State
  pub is_established : ℕ → os.State → Bool
  pub send : ℕ → os.State → Outgoing × os.State
  pub send_to : ℕ → List ℕ → SocketAddr → os.State → SentTo × os.State
  -- `channel::bounded(10000)`, as the sending and the receiving end
  pub bounded_internal : os.State → (ℕ × ℕ) × os.State
  -- an end of a channel goes
  pub drop_end : ℕ → os.State → os.State
  -- `try_recv`; `none` where the channel is empty or disconnected
  pub try_recv_internal : ℕ → os.State → Option QuicInternalMessage × os.State
  -- texts of errors
  pub show_connect : SocketAddr → SocketAddr → String
  pub show_accept : SocketAddr → SocketAddr → String
  pub show_recv_info : SocketAddr → SocketAddr → String
  pub show_sent : SocketAddr → SocketAddr → ℕ → String
