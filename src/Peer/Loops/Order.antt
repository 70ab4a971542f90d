-- ===== src/Peer/Loops/Order.antt =====
-- The order in which the writer of a peer puts messages on its stream.
pub mod Writer
use mathlib.Core.List.{append_assoc, append-nil}
use peer_net.Base.{
  ℕ, zero, suc, ◌+◌, ◌-◌, ◌%◌, ◌^◌, ◌≤◌, ◌<◌, ◌≡◌, ◌≢◌, refl, sym, ◌∙◌, ap, ◌⊎◌, inl, inr, some,
  none, List, [], ◌∷◌, ◌++◌, Eq, arith, length, leb, ltb, Bool-cases,
}
use peer_net.Act.{Outcome, ok, err, panicked, unfinished, ◌>>=◌, modify, Continues, bind_rule}
use mathlib.Core.Path.{subst}
use peer_net.Loop.{Step, stop, again, repeat, follow}
use peer_net.Connections.Calls.{remove_cases}
use peer_net.Os.{Os, TryRecv, received, is_empty, is_disconnected, Ready, stopped, low, high}
use peer_net.World.{World, call}
use peer_net.Endpoint.{TcpEndpoint, tcp}
use peer_net.Endpoint.Dispatch
use peer_net.Connections.{Shared}
use peer_net.Peer.{Running}
use peer_net.Peer.Loops.{
  writer, writer_round, after_try, after_select, write_message, after_send, drop_peer,
  after_removal,
}
use peer_net.Peer.Loops.Prompt.{frames}
use peer_net.Tcp.Exact.Writes.{sent_at}
use peer_net.Tcp.Exact.{write_exact_timeout}
use peer_net.Tcp.Exact.Writes.{write_exact_timeout_long}
use peer_net.Tcp.Framing.{send, send_timeout, to_be_bytes, count_sent}
use peer_net.Tcp.Framing.Sends.{frame, Sent, send_timeout-Sent}
use peer_net.Tcp.Stream.{IsStream}

-- Waiting for messages puts nothing on a stream.
pub record IsAside (os : Os) (stream : IsStream os) (h : ℕ) : Type 0 where
  pub try_law : (rx : ℕ) (s : os.State) → stream.output h (os.try_recv rx s).1 ≡ stream.output h s
  pub select_law :
      (a b c : ℕ) (s : os.State) → stream.output h (os.select a b c s).1 ≡ stream.output h s

module _ {os : Os} {PeerId : Type 0} (fuel peer_stop : ℕ) (peer : Running PeerId)
    (e : TcpEndpoint) where
  abbrev pub tried : World os → TryRecv × World os
  tried w = call (os.try_recv peer.high_write_rx) w

  abbrev pub chosen : World os → Ready × World os
  chosen w = call (os.select peer_stop peer.low_write_rx peer.high_write_rx) (tried w).1

  -- A message is taken from the channel of high priority, or from one of both where none of high
  -- priority was found.
  pub data Taken (m : List ℕ) (w : World os) : World os → Type 0 where
    at_once : (tried w).0 ≡ received m → Taken m w (tried w).1
    waited_low : (tried w).0 ≡ is_empty → (chosen w).0 ≡ low (some m) → Taken m w (chosen w).1
    waited_high : (tried w).0 ≡ is_empty → (chosen w).0 ≡ high (some m) → Taken m w (chosen w).1

  -- From the first state to the second, these messages are taken one by one, and each is sent before
  -- the next is taken.
  pub data Sends : List (List ℕ) → Shared os PeerId → Shared os PeerId → Type 0 where
    nothing : (s : Shared os PeerId) → Sends [] s s
    message :
        (m : List ℕ) (ms : List (List ℕ)) (s t : Shared os PeerId) (w : World os)
        → Taken m s.world w
        → (send os fuel e m w).0 ≡ ok tt
        → Sends ms (record s { world = (send os fuel e m w).1 }) t
        → Sends (m ∷ ms) s t

  after_size-long :
      (m : List ℕ)
      → length m < 2 ^ 32
      → e.config.max_message_size % 2 ^ 32 < length m
      → (o : Outcome ℕ) (v : World os)
      → Continues
          (λ _ _. Unit)
          (λ (o : Outcome (Unit {0})) _. o ≢ ok tt)
          (λ elapsed. write_exact_timeout os fuel e m (e.config.write_timeout - elapsed) >>= λ _.
            modify (count_sent e (length m)))
          o
          v
  after_size-long m small long (ok elapsed) v = λ _ h. cc (
      rw (write_exact_timeout_long os fuel e m (e.config.write_timeout - elapsed) v small long) at
        h)
  after_size-long m small long (err _) v = λ _ h. cc h
  after_size-long m small long panicked v = λ _ h. cc h
  after_size-long m small long unfinished v = λ _ h. cc h

  -- Only a message within the limit is sent.
  pub send-short :
      (m : List ℕ) (w : World os)
      → (send os fuel e m w).0 ≡ ok tt
      → length m ≤ e.config.max_message_size % 2 ^ 32
  unfolding send send_timeout
  send-short m w fine = elim (Bool-cases (leb (2 ^ 32) (length m))) [
    | inl huge ↦ absurd (cc (rw huge at fine))
    | inr small ↦ elim (Bool-cases (ltb (e.config.max_message_size % 2 ^ 32) (length m))) [
      | inr fits ↦ ground (arith, fits)
      | inl long ↦
          let size =
            write_exact_timeout os fuel e (to_be_bytes (length m)) e.config.write_timeout in
          let rest = λ (elapsed : ℕ).
            write_exact_timeout os fuel e m (e.config.write_timeout - elapsed) >>= λ _.
            modify (count_sent e (length m)) in
          absurd (
            bind_rule (λ _ _. Unit) (λ o _. o ≢ ok tt) size rest w tt
              (λ o v. after_size-long m (ground arith) (ground arith) o v) (rw small at fine))
    ]
  ]

  module _ (stream : IsStream os) (aside : IsAside os stream e.stream)
      (enough : e.config.max_message_size % 2 ^ 32 + 4 < fuel) where
    Taken-quiet :
        (m : List ℕ) (w v : World os) → Taken m w v → sent_at os stream e v ≡ sent_at os stream e w
    Taken-quiet m w _ (at_once _) = aside.try_law peer.high_write_rx w.state
    Taken-quiet m w _ (waited_low _ _) =
        aside.select_law _ _ _ _ ∙ aside.try_law peer.high_write_rx w.state
    Taken-quiet m w _ (waited_high _ _) =
        aside.select_law _ _ _ _ ∙ aside.try_law peer.high_write_rx w.state

    send-frame :
        (m : List ℕ) (w : World os)
        → (send os fuel e m w).0 ≡ ok tt
        → sent_at os stream e (send os fuel e m w).1 ≡ sent_at os stream e w ++ frame m
    unfolding send send_timeout
    send-frame m w fine = elim (Bool-cases (leb (2 ^ 32) (length m))) [
      | inl huge ↦ absurd (cc (rw huge at fine))
      | inr small ↦
          let put = rw fine at (
            send_timeout-Sent os stream fuel e m w e.config.write_timeout
              (omega (arith, enough, send-short m w fine)) (omega (arith, enough))) in
          put.1
    ]

    pub Sends-frames :
        (ms : List (List ℕ)) (s t : Shared os PeerId)
        → Sends ms s t
        → (sent_at os stream e t.world ≡ sent_at os stream e s.world ++ frames ms)
          × (t.active ≡ s.active)
    Sends-frames _ s _ (nothing _) = (sym (append-nil _), refl)
    Sends-frames _ s t (message m ms _ _ w taken fine rest) =
        let (more, same) = Sends-frames ms _ t rest in
        (
          more
              ∙ ap (λ l. l ++ frames ms)
                  (send-frame m w fine ∙ ap (λ l. l ++ frame m) (Taken-quiet m s.world w taken))
              ∙ append_assoc (sent_at os stream e s.world) (frame m) (frames ms),
          same,
        )
