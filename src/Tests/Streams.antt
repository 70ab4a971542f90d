-- ===== src/Tests/Streams.antt =====
-- Frames over the test machine.
use peer_net.Base.{
  ℕ, ◌≡◌, refl, List, [], ◌∷◌, ◌++◌, arith, some, none, nat_eq, ◌==◌, if◌then◌else◌,
}
use peer_net.Address.{v4_addr}
use peer_net.Config.{TcpConnectionConfig}
use peer_net.Endpoint.{TcpEndpoint}
use peer_net.Error.{error, send_error, time_out}
use peer_net.Act.{ok, err}
use peer_net.Loop.{repeat}
use peer_net.Tcp.Exact.{read_exact_timeout, write_exact_timeout, read_round, write_round}
use peer_net.Tcp.Exact.Reads.{Read, arrives_at, read_exact_timeout-Read}
use peer_net.Tcp.Exact.Writes.{sent_at}
use peer_net.Tcp.Framing.{to_be_bytes, from_be_bytes, send_timeout, receive}
use peer_net.Tcp.Framing.Sends.{Sent, send_timeout-Sent, send_long}
use peer_net.Tcp.Framing.Receives.{Received, receive-Received, receive-frame}
use peer_net.Tests.Machine.{machine, machine-IsStream, world}

abbrev config : TcpConnectionConfig
config = record {
  rate_limit = 1000;
  rate_time_window = 100;
  rate_bucket_size = 1000;
  data_channel_size = 10;
  max_message_size = 6;
  write_timeout = 20;
  read_timeout = 20;
}

abbrev pub endpoint : TcpEndpoint
endpoint = record {
  config = config;
  address = v4_addr 0x7f000001 8080;
  stream = 1;
  total_bytes_received = 0;
  total_bytes_sent = 1;
  endpoint_bytes_received = 2;
  endpoint_bytes_sent = 3;
}

abbrev five : List ℕ
five = 10 ∷ 20 ∷ 30 ∷ 40 ∷ 50 ∷ []

-- Two frames, one after the other.
abbrev two_frames : List ℕ
two_frames = (0 ∷ 0 ∷ 0 ∷ 5 ∷ []) ++ five ++ (0 ∷ 0 ∷ 0 ∷ 1 ∷ 7 ∷ [])

received : (receive machine 40 endpoint (world two_frames)).0 ≡ ok five
unfolding receive from_be_bytes read_exact_timeout read_round repeat nat_eq
received = refl

-- Two bytes of the size arrive, and then nothing for 20 ticks: the call times out, and the two bytes
-- are gone.
receive_cut_short : receive machine 40 endpoint (world (0 ∷ 0 ∷ [])) ≡ (
  err (error time_out "timeout read data" none),
  record (world []) {
    state = record (world []).state {
      clock = 20;
      inputs = λ h. if h == 1 then [] else if h == 1 then 0 ∷ 0 ∷ [] else [];
    };
  },
)
unfolding receive from_be_bytes read_exact_timeout read_round repeat nat_eq
receive_cut_short = refl

read_exact_timeout-Read_example :
    Read machine machine-IsStream endpoint 5
      (world five)
      (read_exact_timeout machine 40 endpoint 5 20 (world five)).0
      (read_exact_timeout machine 40 endpoint 5 20 (world five)).1
read_exact_timeout-Read_example =
    read_exact_timeout-Read machine machine-IsStream 40 endpoint 5 20 (world five) (omega arith)

send_timeout-Sent_example :
    Sent machine machine-IsStream 40 endpoint five
      (world [])
      (send_timeout machine 40 endpoint five 20 (world [])).0
      (send_timeout machine 40 endpoint five 20 (world [])).1
send_timeout-Sent_example =
    send_timeout-Sent machine machine-IsStream 40 endpoint five (world []) 20 (omega arith)
      (omega arith)

abbrev seven : List ℕ
seven = 1 ∷ 2 ∷ 3 ∷ 4 ∷ 5 ∷ 6 ∷ 7 ∷ []

-- The limit of the endpoint is six bytes.
send_long_example :
    (send_timeout machine 40 endpoint seven 20 (world []) ≡ (
      err (error send_error "send len too long" (some "a length")),
      (write_exact_timeout machine 40 endpoint (to_be_bytes 7) 20 (world [])).1,
    ))
    × (sent_at machine machine-IsStream endpoint
          (write_exact_timeout machine 40 endpoint (to_be_bytes 7) 20 (world [])).1
        ≡ [] ++ to_be_bytes 7)
unfolding write_exact_timeout write_round repeat to_be_bytes nat_eq machine-IsStream
send_long_example =
    send_long machine machine-IsStream 40 endpoint seven 20 (world []) _ {t = 0} (omega arith)
      (omega arith) (omega arith) refl

receive-Received_example :
    Received machine machine-IsStream 40 endpoint
      (world two_frames)
      (receive machine 40 endpoint (world two_frames)).0
      (receive machine 40 endpoint (world two_frames)).1
receive-Received_example =
    receive-Received machine machine-IsStream 40 endpoint (world two_frames) (omega arith)

receive-frame_example :
    (five ≡ five)
    × (arrives_at machine machine-IsStream endpoint
          (receive machine 40 endpoint (world two_frames)).1
        ≡ 0 ∷ 0 ∷ 0 ∷ 1 ∷ 7 ∷ [])
unfolding receive from_be_bytes to_be_bytes read_exact_timeout read_round repeat nat_eq
    machine-IsStream
receive-frame_example =
    receive-frame machine machine-IsStream 40 endpoint (world two_frames) _ five five
      (0 ∷ 0 ∷ 0 ∷ 1 ∷ 7 ∷ []) (omega arith) (omega arith) refl refl
