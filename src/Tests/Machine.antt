-- ===== src/Tests/Machine.antt =====
-- A small operating system for the tests: a clock, and for each handle what is to be read and what was
-- written. A read gives at most three bytes; where nothing is left it times out.
use native.Mathlib.Nat.{le_refl}
use peer_net.Base.{
  ℕ, ◌+◌, ◌≡◌, refl, String, Option, none, some, List, [], ◌∷◌, ◌++◌, min, length, take, drop,
  take-append-drop, length-take, take-length, arith, inl, inr, ◌==◌, nat_eq, if◌then◌else◌,
}
use peer_net.Os.{
  Os, QuicInternalMessage, ReadResult, got, read_failed, would_block, wrote, payload, is_empty,
  stopped, returned,
}
use peer_net.Tcp.Stream.{IsStream, ReadLaw, WriteLaw}
use peer_net.World.{World}

pub record Machine : Type 0 where
  pub clock : ℕ
  pub inputs : ℕ → List ℕ
  pub outputs : ℕ → List ℕ
  -- for each connection of QUIC the datagrams to be read and those that it was given, and for each end
  -- of a channel what it was given and what was taken from it
  pub datagrams : ℕ → List (List ℕ)
  pub offered : ℕ → List (List ℕ)
  pub messages : ℕ → List QuicInternalMessage
  pub taken : ℕ → List QuicInternalMessage

abbrev pub read_at : List ℕ → ℕ → ℕ → Machine → ReadResult × Machine
read_at [] h n m = (read_failed would_block "nothing to read", record m { clock = m.clock + 5 })
read_at (b ∷ bs) h n m = (
  got (take (min n 3) (b ∷ bs)),
  record m { inputs = λ k. if k == h then drop (min n 3) (b ∷ bs) else m.inputs k },
)

-- The channel 9 has lost its other end.
abbrev channel : ℕ → Machine → Option String × Machine
channel h m = (if h == 9 then some "disconnected" else none, m)

abbrev pub put_message : ℕ → QuicInternalMessage → Machine → Option String × Machine
put_message h x m = if h == 9 then (some "disconnected", m) else (
  none,
  record m { messages = λ k. if k == h then m.messages k ++ x ∷ [] else m.messages k },
)

abbrev pub machine : Os
machine = record {
  State = Machine;
  now = λ m. m.clock;
  read = λ h n m. read_at (m.inputs h) h n m;
  write = λ h bs m. (
    wrote (length bs),
    record m { outputs = λ k. if k == h then m.outputs k ++ bs else m.outputs k },
  );
  limit_read = λ h t m. m;
  limit_write = λ h t m. m;
  set_read_timeout = λ h t m. (none, m);
  set_write_timeout = λ h t m. (none, m);
  set_nonblocking = λ h m. m;
  shutdown_stream = λ h m. record m { clock = m.clock + 1 };
  clone_stream = λ h m. (if h == 8 then inl "no descriptor left" else inr (h + 100), m);
  send_bytes = λ h bs m. channel h m;
  try_send_bytes = λ h bs m. channel h m;
  recv_bytes = λ h m. (inl "disconnected", m);
  bounded = λ n m. ((20, 21), m);
  try_recv = λ h m. (is_empty, m);
  select = λ stop l h m. (stopped, m);
  send_internal = λ h x m. put_message h x m;
  send_internal_timeout = λ h x t m. channel h m;
  recv_internal = λ h m. (inr (payload (m.inputs h)), m);
  show = λ n. "a length";
  poll_new = λ m. (none, m);
  waker_new = λ m. (inr 30, m);
  wake = λ h m. channel h m;
  spawn = λ m. (some 31, m);
  join = λ h m. (returned none, m);
  connect_timeout = λ a t m. (inr 1, m);
  bind_udp = λ a m. (some 40, m);
  udp_blocking = λ h m. (none, m);
  clone_udp = λ h m. (some (h + 1), m);
  quiche_config = λ m. (none, m);
  load_cert_chain = λ m. (none, m);
  load_priv_key = λ m. (none, m);
  set_application_protos = λ m. (none, m);
  sleep = λ t m. record m { clock = m.clock + t };
  unbounded = λ m. ((50, 51), m);
  show_version = "a version";
  show_address = λ a. "an address";
  show_attempt = λ a t. "an address and a timeout";
}

pub read_at-ReadLaw :
    (h n : ℕ) (m : Machine) (xs : List ℕ)
    → m.inputs h ≡ xs
    → ReadLaw machine (λ k s. s.inputs k) h n m (read_at xs h n m).0 (read_at xs h n m).1
unfolding nat_eq
read_at-ReadLaw h n m [] e = (refl, omega arith)
read_at-ReadLaw h n m (b ∷ bs) e = (
  omega (arith, length-take (min n 3) (b ∷ bs)),
  ground (arith, take-append-drop (min n 3) (b ∷ bs)),
  omega arith,
)

pub write-WriteLaw :
    (h : ℕ) (bs : List ℕ) (m : Machine)
    → WriteLaw machine (λ k s. s.outputs k) h bs m (machine.write h bs m).0 (machine.write h bs m).1
unfolding nat_eq
write-WriteLaw h bs m = (le_refl _, ground (arith, take-length (length bs) bs), le_refl _)

unfoldable pub machine-IsStream : IsStream machine
machine-IsStream = record {
  input = λ h m. m.inputs h;
  output = λ h m. m.outputs h;
  read_law = λ h n m. read_at-ReadLaw h n m (m.inputs h) refl;
  write_law = write-WriteLaw;
  limit_read_law = λ h t m. (refl, le_refl _);
  limit_write_law = λ h t m. (refl, le_refl _);
  set_read_law = λ h t m. (refl, le_refl _);
  set_write_law = λ h t m. (refl, le_refl _);
}

-- All counters at 0, and the given bytes to be read from stream 1.
abbrev pub world : List ℕ → World machine
world bytes = record {
  state = record {
    clock = 0;
    inputs = λ h. if h == 1 then bytes else [];
    outputs = λ _. [];
    datagrams = λ h. if h == 1 then (1 ∷ []) ∷ (2 ∷ []) ∷ [] else [];
    offered = λ _. [];
    messages = λ h. if h == 2 then payload (5 ∷ []) ∷ QuicInternalMessage.shutdown ∷ [] else [];
    taken = λ _. [];
  };
  counters = λ _. 0;
  next_counter = 10;
}
