-- ===== src/Tests/Errors.antt =====
-- The text of an error.
use peer_net.Base.{◌≡◌, refl, some}
use peer_net.Error.{new, wrap_tcp, TcpError}
use peer_net.Error.Display.{debug_kind, fmt}

stop_text :
    fmt (λ s. s) (new (wrap_tcp TcpError.stop_listener) "join" "gone" (some "address: 1"))
    ≡ "Location: join\nError type: TransportError(Tcp(StopListener))\nError: gone\nAdditionnal debug data: address: 1\n"
unfolding fmt debug_kind
stop_text = refl
