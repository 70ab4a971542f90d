-- ===== src/Tcp/Transport/Configs.antt =====
-- The calls on a TCP transport leave its configuration.
use peer_net.Base.{ℕ, ◌≡◌, refl, String, Option, none, some, ◌⊎◌, inl, inr}
use peer_net.Base.Dict.{lookup}
use peer_net.Address.{SocketAddr, addr_eq}
use peer_net.Act.{Outcome}
use peer_net.Os.{Os, Joined, returned, thread_panicked}
use peer_net.Tcp.Transport.{
  On, asks, listed, after_spawn, after_waker, after_poll, start_listener, after_join, after_wake,
  unlisted, stop_found, stop_listener, spawned, try_connect,
}

module _ {os : Os} {PeerId : Type 0} (x : On os PeerId) where
  abbrev Same : {A : Type 0} → Outcome A × On os PeerId → Type 0
  Same r = r.1.transport.config ≡ x.transport.config

  pub config-start_listener : (address : SocketAddr) → Same (start_listener address x)
  unfolding start_listener after_poll after_waker after_spawn listed
  config-start_listener address = polled (asks os.poll_new x) refl
    where
      spawns :
          (waker : ℕ) (r : Option ℕ × On os PeerId)
          → r.1.transport.config ≡ x.transport.config
          → Same (after_spawn address waker r)
      spawns waker (none, y) same = same
      spawns waker (some handle, y) same = same

      woken :
          (r : (String ⊎ ℕ) × On os PeerId)
          → r.1.transport.config ≡ x.transport.config
          → Same (after_waker address r)
      woken (inl _, y) same = same
      woken (inr waker, y) same = spawns waker _ same

      polled :
          (r : Option String × On os PeerId)
          → r.1.transport.config ≡ x.transport.config
          → Same (after_poll address r)
      polled (some _, y) same = same
      polled (none, y) same = woken _ same

  pub config-stop_listener : (address : SocketAddr) → Same (stop_listener address x)
  unfolding stop_listener stop_found after_wake after_join unlisted
  config-stop_listener address = stops (lookup address x.transport.listeners)
    where
      joins :
          (r : Joined × On os PeerId)
          → r.1.transport.config ≡ x.transport.config
          → Same (after_join r)
      joins (returned none, y) same = same
      joins (returned (some _), y) same = same
      joins (thread_panicked, y) same = same

      woken :
          (handle : ℕ) (r : Option String × On os PeerId)
          → r.1.transport.config ≡ x.transport.config
          → Same (after_wake handle r)
      woken handle (some _, y) same = same
      woken handle (none, y) same = joins _ same

      stops : (o : Option (ℕ × ℕ)) → Same (stop_found address o x)
      stops none = refl
      stops (some (waker, handle)) = woken handle _ refl

  pub config-try_connect : Same (try_connect x)
  unfolding try_connect spawned
  config-try_connect = go (asks os.spawn x) refl
    where
      go :
          (r : Option ℕ × On os PeerId)
          → r.1.transport.config ≡ x.transport.config
          → Same (spawned r)
      go (none, y) same = same
      go (some _, y) same = same
