-- ===== src/Tests/QuicMachine.antt =====
-- A small `mio` and `quiche` over the test machine. Each packet comes from 127.0.0.1, its first byte says
-- whether it has a header, and accepting a TCP stream always fails.
use peer_net.Base.{
  ℕ, ◌≡◌, refl, String, Option, none, some, true, List, [], ◌∷◌, ◌++◌, inl, inr, ap, ◌∙◌,
  Bool-cases, test_refl, ◌==◌, nat_eq, if◌then◌else◌,
}
use mathlib.Core.Option.{none-ne-some, some-ne-none, some-injective}
use peer_net.Address.{v4_addr}
use peer_net.Mio.{Mio, readable, accept_failed}
use peer_net.Os.{QuicInternalMessage}
use peer_net.Quic.Quiche.{Quiche, Header, packet, done, sent_to}
use peer_net.Quic.Connection.Order.{IsOrdered}
use peer_net.Tests.Machine.{Machine, machine, put_message}

abbrev pub mio : Mio machine
mio = record {
  register = λ h m. (true, m);
  poll = λ h m. (some (readable ∷ []), m);
  deregister = λ h m. m;
  bind = λ a m. (some 60, m);
  accept = λ h m. (accept_failed "too many open files", m);
  send_stop = λ h m. (none, m);
}

abbrev parsed : List ℕ → Option Header
parsed [] = none
parsed (b ∷ bs) = if b == 0 then none else some (record { is_initial = true; scid = [] })

abbrev pub first_datagram : ℕ → List (List ℕ) → Machine → Option (List ℕ) × Machine
first_datagram c [] m = (none, m)
first_datagram c (d ∷ ds) m =
    (some d, record m { datagrams = λ k. if k == c then ds else m.datagrams k })

abbrev pub first_message :
    ℕ → List QuicInternalMessage → Machine → Option QuicInternalMessage × Machine
first_message h [] m = (none, m)
first_message h (x ∷ xs) m = (
  some x,
  record m {
    messages = λ k. if k == h then xs else m.messages k;
    taken = λ k. if k == h then m.taken k ++ x ∷ [] else m.taken k;
  },
)

abbrev pub quiche : Quiche machine
quiche = record {
  mio = mio;
  recv_from = λ h m. (packet (m.inputs h) (v4_addr 0x7f000001 9), m);
  parse_header = λ bytes m. (parsed bytes, m);
  accept = λ scid here there m. (inr 3, m);
  connect = λ here there m. (inr 4, m);
  recv = λ c bytes from to m. (if c == 8 then some "refused" else none, m);
  dgram_recv = λ c m. first_datagram c (m.datagrams c) m;
  dgram_send = λ c bytes m. record m {
    offered = λ k. if k == c then m.offered k ++ bytes ∷ [] else m.offered k;
  };
  is_established = λ c m. true;
  send = λ c m. (done, m);
  send_to = λ h bytes to m. (sent_to, m);
  bounded_internal = λ m. ((70, 71), m);
  drop_end = λ h m. m;
  try_recv_internal = λ h m. first_message h (m.messages h) m;
  show_connect = λ a b. "two addresses";
  show_accept = λ a b. "two addresses";
  show_recv_info = λ a b. "two addresses";
  show_sent = λ a b n. "two addresses and a size";
}

pub empty_datagram :
    (c : ℕ) (ds : List (List ℕ)) (m : Machine)
    → m.datagrams c ≡ ds
    → (first_datagram c ds m).0 ≡ none
    → m.datagrams c ≡ []
empty_datagram c [] m e h = e
empty_datagram c (d ∷ ds) m e h = absurd (some-ne-none _ h)

pub next_datagram :
    (c : ℕ) (ds : List (List ℕ)) (m : Machine) (bytes : List ℕ)
    → m.datagrams c ≡ ds
    → (first_datagram c ds m).0 ≡ some bytes
    → m.datagrams c ≡ bytes ∷ (first_datagram c ds m).1.datagrams c
unfolding nat_eq
next_datagram c [] m bytes e h = absurd (none-ne-some _ h)
next_datagram c (d ∷ ds) m bytes e h =
    rw (test_refl c) (e ∙ ap (λ b. b ∷ ds) (some-injective d bytes h))

pub messages-first_datagram :
    (c : ℕ) (ds : List (List ℕ)) (m : Machine) (k : ℕ)
    → (first_datagram c ds m).1.messages k ≡ m.messages k
messages-first_datagram c [] m k = refl
messages-first_datagram c (d ∷ ds) m k = refl

pub empty_message :
    (h : ℕ) (xs : List QuicInternalMessage) (m : Machine)
    → (first_message h xs m).0 ≡ none
    → (first_message h xs m).1 ≡ m
empty_message h [] m e = refl
empty_message h (x ∷ xs) m e = absurd (some-ne-none _ e)

pub next_message :
    (c h : ℕ) (xs : List QuicInternalMessage) (m : Machine) (y : QuicInternalMessage)
    → (first_message h xs m).0 ≡ some y
    → ((first_message h xs m).1.taken h ≡ m.taken h ++ y ∷ [])
      × ((first_message h xs m).1.offered c ≡ m.offered c)
next_message c h [] m y e = absurd (none-ne-some _ e)
next_message c h (x ∷ xs) m y e =
    (rw (test_refl h) (ap (λ z. m.taken h ++ z ∷ []) (some-injective x y e)), refl)

pub send_none :
    (c tx : ℕ) (x : QuicInternalMessage) (m : Machine)
    → (put_message tx x m).0 ≡ none
    → ((put_message tx x m).1.messages tx ≡ m.messages tx ++ x ∷ [])
      × ((put_message tx x m).1.datagrams c ≡ m.datagrams c)
send_none c tx x m e = elim (Bool-cases (tx == 9)) [
  | inl closed ↦ absurd (some-ne-none _ (rw closed at e))
  | inr open' ↦ rw (open', test_refl tx) (refl, refl)
]

pub send_some :
    (c tx : ℕ) (x : QuicInternalMessage) (m : Machine) (text : String)
    → (put_message tx x m).0 ≡ some text
    → ((put_message tx x m).1.messages tx ≡ m.messages tx)
      × ((put_message tx x m).1.datagrams c ≡ m.datagrams c)
send_some c tx x m text e = elim (Bool-cases (tx == 9)) [
  | inl closed ↦ rw closed (refl, refl)
  | inr open' ↦ absurd (none-ne-some _ (rw open' at e))
]

unfoldable pub quiche-IsOrdered : IsOrdered quiche
quiche-IsOrdered = record {
  incoming = λ c m. m.datagrams c;
  offered = λ c m. m.offered c;
  sent = λ tx m. m.messages tx;
  taken = λ rx m. m.taken rx;
  dgram_none = λ c tx m h.
      (empty_datagram c (m.datagrams c) m refl h, messages-first_datagram c (m.datagrams c) m tx);
  dgram_some = λ c tx m bytes h. (
    next_datagram c (m.datagrams c) m bytes refl h,
    messages-first_datagram c (m.datagrams c) m tx,
  );
  send_none = send_none;
  send_some = send_some;
  try_none = λ c rx m h.
      let same = empty_message rx (m.messages rx) m h in
      (ap (λ n. n.taken rx) same, ap (λ n. n.offered c) same);
  try_some = λ c rx m x h. next_message c rx (m.messages rx) m x h;
  dgram_send_law = λ c rx bytes m. (rw (test_refl c) refl, refl);
}
