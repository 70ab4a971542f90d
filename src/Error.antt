-- ===== src/Error.antt =====
-- src/error.rs, with the error types of src/transports/tcp.rs, quic.rs and mod.rs.
pub mod Display
use peer_net.Base.{String, Option, none, some}

pub data TcpError : Type 0 where
  init_listener connection_error stop_listener : TcpError

pub data QuicError : Type 0 where
  init_listener stop_listener socket_config quiche_config connection_error internal_fail : QuicError

pub data TransportErrorType : Type 0 where
  tcp : TcpError → TransportErrorType
  quic : QuicError → TransportErrorType

pub data PeerNetError : Type 0 where
  listener_error peer_id_error wrong_config_type peer_connection_error : PeerNetError
  send_error receive_error handshake_error handler_error sign_error socket_error : PeerNetError
  bound_reached invalid_message could_not_set_timeout connection_closed time_out : PeerNetError
  transport_error : TransportErrorType → PeerNetError

pub record PeerNetErrorData : Type 0 where
  pub location : String
  pub error_type : PeerNetError
  pub error : Option String
  pub add_msg : Option String

-- `PeerNetError::new`; the cause is given by its text, `error.to_string()`.
abbrev pub new : PeerNetError → String → String → Option String → PeerNetErrorData
new kind location error add_msg = record {
  location = location;
  error_type = kind;
  error = some error;
  add_msg = add_msg;
}

-- `PeerNetError::error`, with no cause.
abbrev pub error : PeerNetError → String → Option String → PeerNetErrorData
error kind location add_msg = record {
  location = location;
  error_type = kind;
  error = none;
  add_msg = add_msg;
}

-- `TcpError::wrap` and `QuicError::wrap`
abbrev pub wrap_tcp : TcpError → PeerNetError
wrap_tcp e = transport_error (tcp e)

abbrev pub wrap_quic : QuicError → PeerNetError
wrap_quic e = transport_error (quic e)
