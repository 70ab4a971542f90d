-- ===== src/Tests/Prompts.antt =====
-- Frames that are ready on a stream of the test machine, and room for them.
use peer_net.Base.{
  ℕ, suc, ◌+◌, ◌<◌, ◌≡◌, refl, ap, zero, List, [], ◌∷◌, ◌++◌, arith, length, min, take, nat_eq,
}
use peer_net.Os.{got}
use peer_net.Connections.{Shared}
use peer_net.Endpoint.{tcp}
use peer_net.Peer.{Running}
use peer_net.Peer.Loops.{reader}
use peer_net.Peer.Loops.Prompt.{Handled, IsTaking, reader_hands_on}
use peer_net.Tcp.Exact.Reads.{arrives_at}
use peer_net.Tcp.Exact.Prompt.{IsPrompt}
use peer_net.Tcp.Framing.{receive, to_be_bytes}
use peer_net.Tcp.Exact.Room.{HasRoom}
use peer_net.Tcp.Framing.{send_timeout}
use peer_net.Tcp.Framing.Room.{Posted, send_timeout-Posted}
use peer_net.Tcp.Framing.Prompt.{Arrived, receive-Arrived}
use peer_net.Tests.Machine.{machine, machine-IsStream, Machine, read_at, world}
use peer_net.Tests.Streams.{endpoint}
use peer_net.Tests.Tables.{start}
use peer_net.Tests.Peers.{handler}

take-cons : (n x : ℕ) (xs : List ℕ) → 0 < n → (bs : List ℕ) × (take n (x ∷ xs) ≡ x ∷ bs)
take-cons zero x xs some_bytes = absurd (omega arith)
take-cons (suc n) x xs some_bytes = (take n xs, refl)

some_at :
    (h n : ℕ) (m : Machine) (xs : List ℕ)
    → 0 < n
    → 0 < length xs
    → (b : ℕ) × (bs : List ℕ) × ((read_at xs h n m).0 ≡ got (b ∷ bs))
      × ((read_at xs h n m).1.clock ≡ m.clock)
some_at h n m [] room there = absurd (omega arith)
some_at h n m (x ∷ xs) room there =
    let (bs, begins) = take-cons (min n 3) x xs (omega arith) in
    (x, bs, ap (λ l. got l) begins, refl)

pub machine-IsPrompt : IsPrompt machine machine-IsStream 1
unfolding machine-IsStream
machine-IsPrompt = record {
  read_ready = λ n s room there. some_at 1 n s (s.inputs 1) room there;
  prepare_ready = λ t s. (refl, refl);
}

abbrev first : List ℕ
first = 10 ∷ 20 ∷ 30 ∷ 40 ∷ 50 ∷ []

abbrev both : List ℕ
both = (0 ∷ 0 ∷ 0 ∷ 5 ∷ []) ++ first ++ (0 ∷ 0 ∷ 0 ∷ 1 ∷ 7 ∷ 99 ∷ [])

receive-Arrived_example :
    Arrived machine machine-IsStream endpoint
      (world both)
      first
      (0 ∷ 0 ∷ 0 ∷ 1 ∷ 7 ∷ 99 ∷ [])
      (receive machine 40 endpoint (world both)).0
      (receive machine 40 endpoint (world both)).1
unfolding to_be_bytes machine-IsStream nat_eq
receive-Arrived_example =
    receive-Arrived machine machine-IsStream endpoint (world both) first
      (0 ∷ 0 ∷ 0 ∷ 1 ∷ 7 ∷ 99 ∷ []) machine-IsPrompt 40 (omega arith) (omega arith) (omega arith)
      (omega arith) refl

abbrev ready : Shared machine ℕ
ready = record start { world = world both }

abbrev pub peer : Running ℕ
peer = record {
  peer_id = 7;
  endpoint = tcp endpoint;
  write_endpoint = tcp endpoint;
  low_write_rx = 4;
  high_write_rx = 5;
}

pub handler-IsTaking : IsTaking handler 7 40 endpoint machine-IsStream
handler-IsTaking = record { takes = λ _ _. refl; leaves = λ _ _. refl }

reader_hands_on_example :
    (t : Shared machine ℕ) × Handled handler 7 40 endpoint (first ∷ (7 ∷ []) ∷ []) ready t
    × (arrives_at machine machine-IsStream endpoint t.world ≡ 99 ∷ [])
    × (t.active ≡ ready.active)
    × ((more : ℕ) → reader (2 + more) 40 handler peer ready ≡ reader more 40 handler peer t)
unfolding to_be_bytes machine-IsStream nat_eq
reader_hands_on_example =
    reader_hands_on handler 7 40 endpoint machine-IsStream machine-IsPrompt handler-IsTaking peer
      refl refl (omega arith) (omega arith) (first ∷ (7 ∷ []) ∷ []) (99 ∷ []) ready
      (omega arith, omega arith, (omega arith, omega arith, tt)) refl

machine-HasRoom : HasRoom machine machine-IsStream 1
machine-HasRoom = record {
  write_ready = λ bytes s some_bytes. (length bytes, some_bytes, refl, refl);
  prepare_ready = λ t s. (refl, refl);
}

send_timeout-Posted_example :
    Posted machine machine-IsStream endpoint
      (world [])
      first
      (send_timeout machine 40 endpoint first 20 (world [])).0
      (send_timeout machine 40 endpoint first 20 (world [])).1
send_timeout-Posted_example =
    send_timeout-Posted machine machine-IsStream endpoint (world []) first machine-HasRoom 40 20
      (omega arith) (omega arith) (omega arith) (omega arith) (omega arith)
