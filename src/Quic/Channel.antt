-- ===== src/Quic/Channel.antt =====
-- The endpoint of src/transports/quic.rs: its calls go through two channels to the listener's thread.
use peer_net.Base.{ℕ, String, Option, none, some, List, length, ◌⊎◌, inl, inr}
use peer_net.Error.{new, error, wrap_quic, QuicError}
use peer_net.Act.{Outcome, ok, err, panicked, Act, fail, pure, modify, ◌>>◌}
use peer_net.Os.{Os, QuicInternalMessage, payload}
use peer_net.World.{World, call, add_to}
use peer_net.Endpoint.{QuicEndpoint}

module _ {os : Os} where
  -- `send(..).unwrap()`: it panics when the other end of the channel is gone.
  abbrev unwrap_sent : Option String → World os → Outcome (Unit {0}) × World os
  unwrap_sent none w = (ok tt, w)
  unwrap_sent (some _) w = (panicked, w)

  -- `send(..).map_err(..)?`
  abbrev sent_or_error : Option String → World os → Outcome (Unit {0}) × World os
  sent_or_error none w = (ok tt, w)
  sent_or_error (some text) w =
      (err (new (wrap_quic QuicError.connection_error) "data_sender send" text none), w)

  -- `total_bytes_sent` and `endpoint_bytes_sent` grow by the length of the message.
  abbrev count_sent : QuicEndpoint → ℕ → World os → World os
  count_sent e n w = add_to e.endpoint_bytes_sent n (add_to e.total_bytes_sent n w)

  abbrev count_received : QuicEndpoint → ℕ → World os → World os
  count_received e n w = add_to e.endpoint_bytes_received n (add_to e.total_bytes_received n w)

  -- `QuicEndpoint::shutdown`
  unfoldable pub shutdown : QuicEndpoint → Act (World os) (Unit {0})
  shutdown e w =
      let r = call (os.send_internal e.data_sender QuicInternalMessage.shutdown) w in
      unwrap_sent r.0 r.1

  unfoldable pub send : QuicEndpoint → List ℕ → Act (World os) (Unit {0})
  send e bytes w =
      let r = call (os.send_internal e.data_sender (payload bytes)) w in
      (sent_or_error r.0 >> modify (count_sent e (length bytes))) r.1

  unfoldable pub send_timeout : QuicEndpoint → List ℕ → ℕ → Act (World os) (Unit {0})
  send_timeout e bytes timeout w =
      let r = call (os.send_internal_timeout e.data_sender (payload bytes) timeout) w in
      (sent_or_error r.0 >> modify (count_sent e (length bytes))) r.1

  deliver : QuicEndpoint → String ⊎ QuicInternalMessage → Act (World os) (List ℕ)
  deliver e (inl text) =
      fail (new (wrap_quic QuicError.connection_error) "data_receiver recv" text none)
  deliver e (inr (payload bytes)) = do modify (count_received e (length bytes)); pure bytes
  deliver e (inr QuicInternalMessage.shutdown) =
      fail (error (wrap_quic QuicError.internal_fail) "recv shutdown" (some "Connection closed"))

  unfoldable pub receive : QuicEndpoint → Act (World os) (List ℕ)
  unfolding deliver
  receive e w = let r = call (os.recv_internal e.data_receiver) w in deliver e r.0 r.1
