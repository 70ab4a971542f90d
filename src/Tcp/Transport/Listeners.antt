-- ===== src/Tcp/Transport/Listeners.antt =====
-- What the start and the stop of TCP listeners do to the tables.
pub mod Drop
use peer_net.Base.{
  ℕ, ◌≡◌, refl, ◌∙◌, sym, ap, ◌⊎◌, inl, inr, ◌↔◌, String, Option, none, some, Bool, true, false,
  List, [], ◌∷◌, Eq, ◌==◌, contains, test_eq, test_eq, Bool-cases, Option-cases, arith,
  if◌then◌else◌,
}
use peer_net.Base.Dict.{
  Dict, keys, lookup, insert, remove, NodupKeys, insert-NodupKeys, remove-NodupKeys, lookup-insert,
  lookup-remove,
}
use peer_net.Address.{SocketAddr, addr_eq}
use peer_net.Error.{error, wrap_tcp, TcpError}
use peer_net.Act.{Outcome, ok, err, panicked, unfinished, Act, pure, ◌>>◌}
use peer_net.Os.{Os, Joined, returned, thread_panicked}
use peer_net.Transport.{TransportType}
use peer_net.Tcp.Transport.{
  TcpTransport, With, On, asks, listed, after_spawn, after_waker, after_poll, start_listener,
  after_join, after_wake, unlisted, stop_found, stop_listener, unwrapped, drop_all, drop_transport,
}

module _ {os : Os} {PeerId : Type 0} where
  -- Where no other transport listens: the shared table names exactly the listeners that the transport
  -- has, each once, and each as one of TCP.
  pub record IsListed (x : On os PeerId) : Type 0 where
    pub own_distinct : NodupKeys x.transport.listeners
    pub distinct : NodupKeys x.shared.active.listeners
    pub agree :
        (a : SocketAddr)
        → ((lookup a x.transport.listeners ≡ none) × (lookup a x.shared.active.listeners ≡ none))
          ⊎ ((t : ℕ × ℕ) × (lookup a x.transport.listeners ≡ some t)
              × (lookup a x.shared.active.listeners ≡ some TransportType.tcp))

  -- The calls of the operating system leave both tables.
  abbrev pub SameTables : On os PeerId → On os PeerId → Type 0
  SameTables x y =
      (y.transport.listeners ≡ x.transport.listeners)
      × (y.shared.active.listeners ≡ x.shared.active.listeners)

  same-IsListed : (x y : On os PeerId) → SameTables x y → IsListed x → IsListed y
  same-IsListed x y (own, table) is = record {
    own_distinct = rw own is.own_distinct;
    distinct = rw table is.distinct;
    agree = λ a. rw (own, table) (is.agree a);
  }

  listed-IsListed :
      (address : SocketAddr) (t : ℕ × ℕ) (x : On os PeerId)
      → IsListed x
      → IsListed (listed address t x)
  unfolding listed
  listed-IsListed address t x is = record {
    own_distinct = insert-NodupKeys address t x.transport.listeners is.own_distinct;
    distinct = insert-NodupKeys address TransportType.tcp x.shared.active.listeners is.distinct;
    agree = λ a.
        rw
          (
            lookup-insert a address t x.transport.listeners,
            lookup-insert a address TransportType.tcp x.shared.active.listeners,
          )
          (elim (Bool-cases (a == address)) [
            | inl here ↦ rw here (inr (t, refl, refl))
            | inr other ↦ rw other (is.agree a)
          ]);
  }

  unlisted-IsListed :
      (address : SocketAddr) (x : On os PeerId) → IsListed x → IsListed (unlisted address x)
  unfolding unlisted
  unlisted-IsListed address x is = record {
    own_distinct = remove-NodupKeys address x.transport.listeners is.own_distinct;
    distinct = remove-NodupKeys address x.shared.active.listeners is.distinct;
    agree = λ a.
        rw
          (
            lookup-remove a address x.transport.listeners is.own_distinct,
            lookup-remove a address x.shared.active.listeners is.distinct,
          )
          (elim (Bool-cases (a == address)) [
            | inl here ↦ rw here (inl (refl, refl))
            | inr other ↦ rw other (is.agree a)
          ]);
  }

  -- How a start ends: with an error or a panic and both tables as they were, or with the listener in
  -- both.
  abbrev Started : SocketAddr → On os PeerId → Outcome (Unit {0}) × On os PeerId → Type 0
  Started address x (ok _, y) =
      (t : ℕ × ℕ) × (y.transport.listeners ≡ insert address t x.transport.listeners)
      × (y.shared.active.listeners ≡ insert address TransportType.tcp x.shared.active.listeners)
  Started address x (unfinished, y) = ⊥
  Started address x (_, y) = SameTables x y

  start_listener-Started :
      (address : SocketAddr) (x : On os PeerId) → Started address x (start_listener address x)
  unfolding start_listener after_poll after_waker after_spawn listed
  start_listener-Started address x = polled _ (refl, refl)
    where
      spawned :
          (waker : ℕ) (r : Option ℕ × On os PeerId)
          → SameTables x r.1
          → Started address x (after_spawn address waker r)
      spawned waker (none, y) same = same
      spawned waker (some handle, y) same = (
        (waker, handle),
        ap (insert address (waker, handle)) same.0,
        ap (insert address TransportType.tcp) same.1,
      )

      woken :
          (r : (String ⊎ ℕ) × On os PeerId)
          → SameTables x r.1
          → Started address x (after_waker address r)
      woken (inl _, y) same = same
      woken (inr waker, y) same = spawned waker _ same

      polled :
          (r : Option String × On os PeerId)
          → SameTables x r.1
          → Started address x (after_poll address r)
      polled (some _, y) same = same
      polled (none, y) same = woken _ same

  -- A stop that found a listener has taken it out of both tables, however the call ends.
  abbrev pub Stopped : SocketAddr → On os PeerId → Outcome (Unit {0}) × On os PeerId → Type 0
  Stopped address x (unfinished, y) = ⊥
  Stopped address x (_, y) =
      (y.transport.listeners ≡ remove address x.transport.listeners)
      × (y.shared.active.listeners ≡ remove address x.shared.active.listeners)

  after_wake-Stopped :
      (address : SocketAddr) (handle : ℕ) (x : On os PeerId) (r : Option String × On os PeerId)
      → SameTables (unlisted address x) r.1
      → Stopped address x (after_wake handle r)
  unfolding after_wake unlisted after_join
  after_wake-Stopped address handle x (some _, y) same = same
  after_wake-Stopped address handle x (none, y) same = joined _ same
    where
      joined :
          (r : Joined × On os PeerId)
          → SameTables (unlisted address x) r.1
          → Stopped address x (after_join r)
      joined (returned none, y) same = same
      joined (returned (some _), y) same = same
      joined (thread_panicked, y) same = same

  -- Without a listener at the address a stop gives the error that says so, and changes nothing. With
  -- one, it leaves both tables without it and is never `unfinished`, whether waking or joining the
  -- thread then fails or not.
  pub stop_listener_lem :
      (address : SocketAddr) (x : On os PeerId)
      → ((lookup address x.transport.listeners ≡ none)
          × (stop_listener address x ≡ (
            err (
                error (wrap_tcp TcpError.stop_listener) "rm addr" (some (os.show_address address))),
            x,
          )))
        ⊎ ((t : ℕ × ℕ) × (lookup address x.transport.listeners ≡ some t)
            × Stopped address x (stop_listener address x))
  unfolding stop_listener stop_found
  stop_listener_lem address x = elim (Option-cases (lookup address x.transport.listeners)) [
    | inl missing ↦ inl (missing, rw missing refl)
    | inr ((waker, handle), found) ↦ inr (
      (waker, handle),
      found,
      rw found (
          after_wake-Stopped address handle x (asks (os.wake waker) (unlisted address x))
            (refl, refl)),
    )
  ]

  start_listener-IsListed :
      (address : SocketAddr) (x : On os PeerId) → IsListed x → IsListed (start_listener address x).1
  unfolding listed
  start_listener-IsListed address x is =
      go (start_listener address x) (start_listener-Started address x)
    where
      go : (r : Outcome (Unit {0}) × On os PeerId) → Started address x r → IsListed r.1
      go (ok _, y) (t, own, table) =
          same-IsListed (listed address t x) y (own, table) (listed-IsListed address t x is)
      go (err _, y) same = same-IsListed x y same is
      go (panicked, y) same = same-IsListed x y same is
      go (unfinished, y) same = elim same [ ]

  pub Stopped-IsListed :
      (address : SocketAddr) (x : On os PeerId) (r : Outcome (Unit {0}) × On os PeerId)
      → Stopped address x r
      → IsListed x
      → IsListed r.1
  unfolding unlisted
  Stopped-IsListed address x (ok _, y) gone is =
      same-IsListed (unlisted address x) y gone (unlisted-IsListed address x is)
  Stopped-IsListed address x (err _, y) gone is =
      same-IsListed (unlisted address x) y gone (unlisted-IsListed address x is)
  Stopped-IsListed address x (panicked, y) gone is =
      same-IsListed (unlisted address x) y gone (unlisted-IsListed address x is)
  Stopped-IsListed address x (unfinished, y) gone is = elim gone [ ]

  stop_listener-IsListed :
      (address : SocketAddr) (x : On os PeerId) → IsListed x → IsListed (stop_listener address x).1
  stop_listener-IsListed address x is = elim (stop_listener_lem address x) [
    | inl (_, same) ↦ rw same is
    | inr (_, _, gone) ↦ Stopped-IsListed address x (stop_listener address x) gone is
  ]

-- A call by the owner of the transport.
pub data Call : Type 0 where
  starts stops : SocketAddr → Call

module _ {os : Os} {PeerId : Type 0} where
  perform : Call → On os PeerId → On os PeerId
  perform (starts address) x = (start_listener address x).1
  perform (stops address) x = (stop_listener address x).1

  unfoldable pub run : List Call → On os PeerId → On os PeerId
  unfolding perform
  run [] x = x
  run (c ∷ cs) x = run cs (perform c x)

  perform-IsListed : (c : Call) (x : On os PeerId) → IsListed x → IsListed (perform c x)
  unfolding perform
  perform-IsListed (starts address) x is = start_listener-IsListed address x is
  perform-IsListed (stops address) x is = stop_listener-IsListed address x is

  -- Through any history of starts and stops of listeners, those that fail or panic included: if at
  -- first the shared table names exactly the listeners that the transport has, as listeners of TCP,
  -- then it does so at the end.
  pub run-IsListed : (cs : List Call) (x : On os PeerId) → IsListed x → IsListed (run cs x)
  unfolding run
  run-IsListed [] x is = is
  run-IsListed (c ∷ cs) x is = run-IsListed cs (perform c x) (perform-IsListed c x is)
