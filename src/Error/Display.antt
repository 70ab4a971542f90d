-- ===== src/Error/Display.antt =====
-- The text of an error: `Display` of src/error.rs, with the derived `Debug` of its kinds. The text of
-- `{:?}` on a string, which escapes it, is a parameter.
use Prim.Native.String.{String, ◌++◌}
use peer_net.Base.{Option, none, some}
use peer_net.Error.{
  TcpError, QuicError, TransportErrorType, tcp, quic, PeerNetError, listener_error, peer_id_error,
  wrong_config_type, peer_connection_error, send_error, receive_error, handshake_error,
  handler_error, sign_error, socket_error, bound_reached, invalid_message, could_not_set_timeout,
  connection_closed, time_out, transport_error, PeerNetErrorData,
}

debug_tcp : TcpError → String
debug_tcp TcpError.init_listener = "InitListener"
debug_tcp TcpError.connection_error = "ConnectionError"
debug_tcp TcpError.stop_listener = "StopListener"

debug_quic : QuicError → String
debug_quic QuicError.init_listener = "InitListener"
debug_quic QuicError.stop_listener = "StopListener"
debug_quic QuicError.socket_config = "SocketConfig"
debug_quic QuicError.quiche_config = "QuicheConfig"
debug_quic QuicError.connection_error = "ConnectionError"
debug_quic QuicError.internal_fail = "InternalFail"

debug_transport : TransportErrorType → String
unfolding debug_tcp debug_quic
debug_transport (tcp e) = "Tcp(" ++ debug_tcp e ++ ")"
debug_transport (quic e) = "Quic(" ++ debug_quic e ++ ")"

unfoldable pub debug_kind : PeerNetError → String
unfolding debug_transport
debug_kind listener_error = "ListenerError"
debug_kind peer_id_error = "PeerIdError"
debug_kind wrong_config_type = "WrongConfigType"
debug_kind peer_connection_error = "PeerConnectionError"
debug_kind send_error = "SendError"
debug_kind receive_error = "ReceiveError"
debug_kind handshake_error = "HandshakeError"
debug_kind handler_error = "HandlerError"
debug_kind sign_error = "SignError"
debug_kind socket_error = "SocketError"
debug_kind bound_reached = "BoundReached"
debug_kind invalid_message = "InvalidMessage"
debug_kind could_not_set_timeout = "CouldNotSetTimeout"
debug_kind connection_closed = "ConnectionClosed"
debug_kind time_out = "TimeOut"
debug_kind (transport_error e) = "TransportError(" ++ debug_transport e ++ ")"

abbrev plain : String → Option String → String
plain label none = ""
plain label (some text) = label ++ text ++ "\n"

module _ (debug : String → String) where
  abbrev line : String → Option String → String
  line label none = ""
  line label (some text) = label ++ debug text ++ "\n"

  -- `Display::fmt`, where writing does not fail
  unfoldable pub fmt : PeerNetErrorData → String
  unfolding debug_kind
  fmt e =
      "Location: "
      ++ e.location
      ++ "\n"
      ++ ("Error type: " ++ debug_kind e.error_type ++ "\n")
      ++ line "Error: " e.error
      ++ plain "Additionnal debug data: " e.add_msg
