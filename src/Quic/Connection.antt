-- ===== src/Quic/Connection.antt =====
-- A connection of the listener of src/transports/quic.rs: what goes from `quiche` to the peer's channel,
-- and from the peer's channel to `quiche` and the socket. Each `loop` takes fuel.
pub mod Order
pub mod Forward
use peer_net.Base.{
  ℕ, String, Option, none, some, Bool, true, false, ◌||◌, List, length, if◌then◌else◌,
}
use peer_net.Address.{SocketAddr}
use peer_net.Error.{new, wrap_quic, QuicError}
use peer_net.Act.{Outcome, ok, err, panicked, unfinished, Act, pure, modify, ◌>>=◌, ◌>>◌}
use peer_net.Os.{Os, QuicInternalMessage, payload}
use peer_net.World.{World, call, change}
use peer_net.Loop.{Step, stop, again, repeat}
use peer_net.Quic.Quiche.{
  Quiche, Outgoing, write, done, send_failed, SentTo, sent_to, to_would_block, to_failed,
}

-- `QuicConnection`: the connection, the receiving end of what the peer sends, the sending end of what
-- it receives.
pub record QuicConnection : Type 0 where
  pub connection : ℕ
  pub send_rx : ℕ
  pub recv_tx : ℕ
  pub is_established : Bool

abbrev Round : Os → Type 0
Round os = Step (Unit {0}) (Unit {0}) × World os

module _ {os : Os} (q : Quiche os) where
  delivered : Option String → World os → Round os
  delivered (some text) w =
      (stop (err (new (wrap_quic QuicError.internal_fail) "send internal msg" text none)), w)
  delivered none w = (again tt, w)

  received : ℕ → Option (List ℕ) → World os → Round os
  unfolding delivered
  received sender none w = (stop (ok tt), w)
  received sender (some bytes) w =
      let r = call (os.send_internal sender (payload bytes)) w in delivered r.0 r.1

  unfoldable pub deliver_round : QuicConnection → Unit {0} → World os → Round os
  unfolding received
  deliver_round c _ w = let r = call (q.dgram_recv c.connection) w in received c.recv_tx r.0 r.1

  -- `while let Ok(len) = connection.dgram_recv(..)`
  unfoldable pub deliver : ℕ → QuicConnection → Act (World os) (Unit {0})
  deliver fuel c = repeat fuel (deliver_round c) tt

  taken_out : QuicConnection → Option QuicInternalMessage → World os → Round os
  taken_out c none w = (stop (ok tt), w)
  taken_out c (some (payload bytes)) w = (again tt, change (q.dgram_send c.connection bytes) w)
  taken_out c (some QuicInternalMessage.shutdown) w = (stop (ok tt), w)

  unfoldable pub forward_round : QuicConnection → Unit {0} → World os → Round os
  unfolding taken_out
  forward_round c _ w = let r = call (q.try_recv_internal c.send_rx) w in taken_out c r.0 r.1

  -- `while let Ok(data) = send_rx.try_recv()`
  unfoldable pub forward : ℕ → QuicConnection → Act (World os) (Unit {0})
  forward fuel c = repeat fuel (forward_round c) tt

  -- `address` is that of the connection in the map, which hides the listener's.
  put_failed : SocketAddr → SocketAddr → ℕ → String → World os → Round os
  put_failed address to n text w = (
    stop (
        err (
          new (wrap_quic QuicError.connection_error) "listener send_to" text
            (some (q.show_sent address to n)))),
    w,
  )

  put : SocketAddr → SocketAddr → ℕ → SentTo → World os → Round os
  unfolding put_failed
  put address to n sent_to w = (again tt, w)
  put address to n (to_would_block text) w = put_failed address to n text w
  put address to n (to_failed text) w = put_failed address to n text w

  put_out : ℕ → SocketAddr → Outgoing → World os → Round os
  unfolding put
  put_out socket address (write bytes to) w =
      let r = call (q.send_to socket bytes to) w in put address to (length bytes) r.0 r.1
  put_out socket address done w = (stop (ok tt), w)
  put_out socket address (send_failed text) w = (stop (ok tt), w)

  unfoldable pub put_round : ℕ → SocketAddr → QuicConnection → Unit {0} → World os → Round os
  unfolding put_out
  put_round socket address c _ w =
      let r = call (q.send c.connection) w in put_out socket address r.0 r.1

  -- `is_established`, which stays once it was set
  unfoldable pub refreshed : QuicConnection → World os → QuicConnection
  refreshed c w = record c {
    is_established = c.is_established || q.is_established c.connection w.state;
  }

  -- One pass of the loop over the connections.
  unfoldable pub flush : ℕ → ℕ → SocketAddr → QuicConnection → Act (World os) (Unit {0})
  flush fuel socket address c w =
      ((if c.is_established then forward fuel c else pure tt)
          >> repeat fuel (put_round socket address c) tt)
        w
