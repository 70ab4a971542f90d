-- ===== src/Tests/Talks.antt =====
-- A writer that finds one message of high and one of low priority, and a reader behind it.
use peer_net.Base.{
  ℕ, ◌+◌, ◌≡◌, refl, ◌⊎◌, some, List, [], ◌∷◌, ◌++◌, arith, length, nat_eq, ◌==◌, if◌then◌else◌,
}
use peer_net.Act.{unfinished}
use peer_net.Loop.{stop, repeat}
use peer_net.Os.{Os, TryRecv, received, is_empty, Ready, stopped, low}
use peer_net.World.{add_to}
use peer_net.Connections.{Shared, empty}
use peer_net.Peer.Loops.{reader, writer, writer_round}
use peer_net.Peer.Loops.Order.{IsAside, Sends, nothing, message, at_once, waited_low}
use peer_net.Peer.Loops.Order.Writer.{writer_in_order}
use peer_net.Peer.Loops.Prompt.{frames, Handled}
use peer_net.Peer.Loops.Talk.{reader_gets_what_writer_sent}
use peer_net.Tcp.Exact.{write_exact_timeout, write_round}
use peer_net.Tcp.Exact.Reads.{arrives_at}
use peer_net.Tcp.Exact.Writes.{sent_at}
use peer_net.Tcp.Framing.{send, send_timeout, to_be_bytes, count_sent}
use peer_net.Tcp.Stream.{IsStream}
use peer_net.Tests.Machine.{machine, machine-IsStream, read_at-ReadLaw, write-WriteLaw, world}
use peer_net.Tests.Streams.{endpoint}
use peer_net.Tests.Tables.{start}
use peer_net.Tests.Peers.{handler}
use peer_net.Tests.Prompts.{machine-IsPrompt, handler-IsTaking, peer}

-- Until something is put out a message of high priority waits.
abbrev high_waits : List ℕ → TryRecv
high_waits [] = received (10 ∷ [])
high_waits (b ∷ bs) = is_empty

-- After the first message, of one byte, one of low priority waits.
abbrev low_waits : ℕ → Ready
low_waits n = if n == 5 then low (some (7 ∷ 8 ∷ [])) else stopped

abbrev talker : Os
talker = record machine {
  try_recv = λ h m. (high_waits (m.outputs 1), m);
  select = λ a b c m. (low_waits (length (m.outputs 1)), m);
}

unfoldable talker-IsStream : IsStream talker
unfolding machine-IsStream
talker-IsStream = record {
  input = λ h m. m.inputs h;
  output = λ h m. m.outputs h;
  read_law = λ h n m. read_at-ReadLaw h n m (m.inputs h) refl;
  write_law = write-WriteLaw;
  limit_read_law = machine-IsStream.limit_read_law;
  limit_write_law = machine-IsStream.limit_write_law;
  set_read_law = machine-IsStream.set_read_law;
  set_write_law = machine-IsStream.set_write_law;
}

talker-IsAside : IsAside talker talker-IsStream 1
unfolding talker-IsStream
talker-IsAside = record { try_law = λ _ _. refl; select_law = λ _ _ _ _. refl }

abbrev talking : Shared talker ℕ
talking = record {
  active = empty;
  world = record { state = (world []).state; counters = λ _. 0; next_counter = 10 };
}

writer_in_order_example :
    (ms : List (List ℕ)) × (u : Shared talker ℕ) × Sends 40 6 peer endpoint ms talking u
    × (sent_at talker talker-IsStream endpoint u.world
        ≡ sent_at talker talker-IsStream endpoint talking.world ++ frames ms)
    × (u.active ≡ talking.active)
    × ((writer 5 40 6 peer talking ≡ (unfinished, u))
        ⊎ (writer_round 40 6 peer tt u
            ≡ (stop (writer 5 40 6 peer talking).0, (writer 5 40 6 peer talking).1)))
writer_in_order_example =
    writer_in_order 40 6 peer endpoint refl talker-IsStream talker-IsAside (omega arith) 5 talking

abbrev two : List (List ℕ)
two = (10 ∷ []) ∷ (7 ∷ 8 ∷ []) ∷ []

abbrev after_first : Shared talker ℕ
after_first = record talking { world = (send talker 40 endpoint (10 ∷ []) talking.world).1 }

abbrev after_both : Shared talker ℕ
after_both = record after_first {
  world = (send talker 40 endpoint (7 ∷ 8 ∷ []) after_first.world).1;
}

both_sent : Sends 40 6 peer endpoint two talking after_both
unfolding send send_timeout write_exact_timeout write_round repeat to_be_bytes count_sent add_to
    nat_eq
both_sent = message (10 ∷ []) _ talking after_both talking.world (at_once refl) refl (
    message (7 ∷ 8 ∷ []) _ after_first after_both after_first.world (waited_low refl refl) refl
      (nothing after_both))

abbrev arrived : Shared machine ℕ
arrived = record start { world = world (0 ∷ 0 ∷ 0 ∷ 1 ∷ 10 ∷ 0 ∷ 0 ∷ 0 ∷ 2 ∷ 7 ∷ 8 ∷ 99 ∷ []) }

reader_gets_what_writer_sent_example :
    (t : Shared machine ℕ) × Handled handler 7 40 endpoint two arrived t
    × (arrives_at machine machine-IsStream endpoint t.world ≡ 99 ∷ [])
    × (t.active ≡ arrived.active)
    × ((k : ℕ) → reader (2 + k) 40 handler peer arrived ≡ reader k 40 handler peer t)
unfolding send send_timeout write_exact_timeout write_round repeat to_be_bytes count_sent add_to
    nat_eq talker-IsStream machine-IsStream
reader_gets_what_writer_sent_example =
    reader_gets_what_writer_sent 40 6 peer endpoint talker-IsStream talker-IsAside (omega arith)
      handler 40 peer endpoint machine-IsStream machine-IsPrompt handler-IsTaking refl (omega arith)
      (omega arith) (omega arith) two talking after_both
      (0 ∷ 0 ∷ 0 ∷ 1 ∷ 10 ∷ 0 ∷ 0 ∷ 0 ∷ 2 ∷ 7 ∷ 8 ∷ []) (99 ∷ []) arrived both_sent
      (omega arith, (omega arith, tt)) refl refl
