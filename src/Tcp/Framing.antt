-- ===== src/Tcp/Framing.antt =====
-- `TcpTransport::send`, `send_timeout` and `receive` of src/transports/tcp.rs: a message goes as its
-- length in four bytes, the highest first, and then its bytes.
pub mod Sends
pub mod Receives
pub mod Prompt
pub mod Room
use peer_net.Base.{
  ℕ, ◌+◌, ◌-◌, ◌*◌, ◌/◌, ◌%◌, ◌^◌, Option, some, List, [], ◌∷◌, length, ltb, leb, if◌then◌else◌,
}
use peer_net.Error.{error, wrap_tcp, TcpError, invalid_message}
use peer_net.Act.{Act, pure, fail, ◌>>=◌, ◌>>◌, modify}
use peer_net.Os.{Os}
use peer_net.World.{World, add_to}
use peer_net.Endpoint.{TcpEndpoint}
use peer_net.Tcp.Exact.{read_exact_timeout, write_exact_timeout}

-- `u32::to_be_bytes`
unfoldable pub to_be_bytes : ℕ → List ℕ
to_be_bytes n = (n / 2 ^ 24 % 256) ∷ (n / 2 ^ 16 % 256) ∷ (n / 2 ^ 8 % 256) ∷ (n % 256) ∷ []

be_from : ℕ → List ℕ → ℕ
be_from acc [] = acc
be_from acc (b ∷ bs) = be_from (acc * 256 + b) bs

-- `u32::from_be_bytes`, of four bytes
unfoldable pub from_be_bytes : List ℕ → ℕ
unfolding be_from
from_be_bytes bs = be_from 0 bs

module _ {os : Os} where
  -- `total_bytes_sent` and `endpoint_bytes_sent` grow by the length of the message.
  unfoldable pub count_sent : TcpEndpoint → ℕ → World os → World os
  unfolding add_to
  count_sent e n w = add_to e.endpoint_bytes_sent n (add_to e.total_bytes_sent n w)

  unfoldable pub count_received : TcpEndpoint → ℕ → World os → World os
  unfolding add_to
  count_received e n w = add_to e.endpoint_bytes_received n (add_to e.total_bytes_received n w)

module _ (os : Os) (fuel : ℕ) where
  unfoldable pub send_timeout : TcpEndpoint → List ℕ → ℕ → Act (World os) (Unit {0})
  send_timeout e bytes timeout =
      if leb (2 ^ 32) (length bytes)
      then fail (
          error (wrap_tcp TcpError.connection_error) "send len too long"
            (some (os.show (length bytes))))
      else do
        elapsed ← write_exact_timeout os fuel e (to_be_bytes (length bytes)) timeout
        _ ← write_exact_timeout os fuel e bytes (timeout - elapsed)
        modify (count_sent e (length bytes))

  -- The body of `send` is that of `send_timeout`, with the timeout of the configuration.
  unfoldable pub send : TcpEndpoint → List ℕ → Act (World os) (Unit {0})
  unfolding send_timeout
  send e bytes = send_timeout e bytes e.config.write_timeout

  -- What `receive` does after the four bytes of the size.
  receive_body : TcpEndpoint → ℕ → ℕ → Act (World os) (List ℕ)
  receive_body e elapsed res_size =
      if ltb (e.config.max_message_size % 2 ^ 32) res_size
      then fail (error invalid_message "len too long" (some (os.show res_size)))
      else do
        (bytes, _) ← read_exact_timeout os fuel e res_size (e.config.read_timeout - elapsed)
        modify (count_received e res_size)
        pure bytes

  unfoldable pub receive : TcpEndpoint → Act (World os) (List ℕ)
  unfolding receive_body
  receive e = do
    (len_bytes, elapsed) ← read_exact_timeout os fuel e 4 e.config.read_timeout
    receive_body e elapsed (from_be_bytes len_bytes)
