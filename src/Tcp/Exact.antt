-- ===== src/Tcp/Exact.antt =====
-- `read_exact_timeout` and `write_exact_timeout` of src/transports/tcp.rs. One round of each loop is a
-- function of its own; `remaining` is what is left of the timeout at the head of the round.
pub mod Reads
pub mod Writes
pub mod Prompt
pub mod Room
use peer_net.Base.{
  ℕ, ◌+◌, ◌-◌, ◌%◌, ◌^◌, String, Bool, true, false, Option, none, some, List, [], ◌∷◌, ◌++◌, length,
  drop, ltb, leb, ◌==◌, nat_eq, if◌then◌else◌,
}
use peer_net.Error.{
  PeerNetErrorData, error, time_out, could_not_set_timeout, connection_closed, receive_error,
  send_error,
}
use peer_net.Act.{Outcome, ok, err, Act}
use peer_net.Os.{
  Os, ErrorKind, would_block, timed_out, interrupted, other, ReadResult, got, read_failed,
  WriteResult, wrote, write_failed,
}
use peer_net.World.{World, time, call, change}
use peer_net.Loop.{Step, stop, again, repeat}
use peer_net.Endpoint.{TcpEndpoint}

-- The kinds of error on which a read is tried again.
abbrev pub is_retried : ErrorKind → Bool
is_retried would_block = true
is_retried timed_out = true
is_retried interrupted = true
is_retried other = false

module _ (os : Os) where
  -- `start_time.elapsed()`
  abbrev pub elapsed : ℕ → World os → ℕ
  elapsed start w = time w - start

  -- `TcpEndpoint::shutdown`
  unfoldable pub shutdown : TcpEndpoint → World os → World os
  shutdown e w = change (os.shutdown_stream e.stream) w

  after_read : TcpEndpoint → List ℕ → ReadResult → World os → Step (List ℕ × ℕ) (List ℕ) × World os
  unfolding shutdown
  after_read e buf (got []) w =
      (stop (err (error connection_closed "Receive data read len = 0" none)), shutdown e w)
  after_read e buf (got (b ∷ bs)) w = (again (buf ++ b ∷ bs), w)
  after_read e buf (read_failed kind text) w =
      if is_retried kind
      then (again buf, w)
      else (stop (err (error receive_error "error read data stream" (some text))), w)

  read_some :
      TcpEndpoint → ℕ → List ℕ → Option String → World os → Step (List ℕ × ℕ) (List ℕ) × World os
  unfolding after_read
  read_some e len buf (some text) w =
      (stop (err (error could_not_set_timeout "error setting read timeout" (some text))), w)
  read_some e len buf none w =
      let r = call (os.read e.stream (len - length buf)) w in after_read e buf r.0 r.1

  -- A round of the loop, with `buf` the part of the buffer that is filled. The loop ends with the
  -- buffer and the time that it took.
  unfoldable pub read_round :
      TcpEndpoint → ℕ → ℕ → ℕ → List ℕ → World os → Step (List ℕ × ℕ) (List ℕ) × World os
  unfolding read_some
  read_round e start timeout len buf w =
      let remaining = timeout - elapsed start w in
      let set =
        call (os.set_read_timeout e.stream remaining)
          (change (os.limit_read e.stream remaining) w) in
      if ltb (length buf) len
      then (if remaining == 0
          then (stop (err (error time_out "timeout read data" none)), w)
          else read_some e len buf set.0 set.1)
      else (stop (ok (buf, elapsed start w)), w)

  unfoldable pub read_exact_timeout : ℕ → TcpEndpoint → ℕ → ℕ → Act (World os) (List ℕ × ℕ)
  read_exact_timeout fuel e len timeout w = repeat fuel (read_round e (time w) timeout len) [] w

  after_write : TcpEndpoint → ℕ → WriteResult → World os → Step ℕ ℕ × World os
  unfolding shutdown
  after_write e count (wrote n) w =
      if n == 0
      then (stop (err (error send_error "write len = 0" none)), shutdown e w)
      else (again (count + n), w)
  after_write e count (write_failed kind text) w =
      (stop (err (error send_error "error on write" (some text))), w)

  write_some : TcpEndpoint → List ℕ → ℕ → Option String → World os → Step ℕ ℕ × World os
  unfolding after_write
  write_some e bytes count (some text) w =
      (stop (err (error could_not_set_timeout "error setting write timeout" (some text))), w)
  write_some e bytes count none w =
      let r = call (os.write e.stream (drop count bytes)) w in after_write e count r.0 r.1

  unfoldable pub write_round : TcpEndpoint → ℕ → ℕ → List ℕ → ℕ → World os → Step ℕ ℕ × World os
  unfolding write_some
  write_round e start timeout bytes count w =
      let remaining = timeout - elapsed start w in
      let set =
        call (os.set_write_timeout e.stream remaining)
          (change (os.limit_write e.stream remaining) w) in
      if ltb count (length bytes)
      then (if remaining == 0
          then (stop (err (error time_out "send write timeout" none)), w)
          else write_some e bytes count set.0 set.1)
      else (stop (ok (elapsed start w)), w)

  -- The size must fit a `u32`, and `max_message_size as u32` drops the high bits of the limit.
  unfoldable pub write_exact_timeout : ℕ → TcpEndpoint → List ℕ → ℕ → Act (World os) ℕ
  write_exact_timeout fuel e bytes timeout w =
      if leb (2 ^ 32) (length bytes)
      then (err (error send_error "error with send len" (some (os.show (length bytes)))), w)
      else if ltb (e.config.max_message_size % 2 ^ 32) (length bytes)
      then (err (error send_error "send len too long" (some (os.show (length bytes)))), w)
      else repeat fuel (write_round e (time w) timeout bytes) 0 w
