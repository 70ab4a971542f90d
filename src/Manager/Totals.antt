-- ===== src/Manager/Totals.antt =====
-- The totals of a manager and the calls on its TCP endpoints.
use peer_net.Base.{
  ℕ, ◌+◌, ◌%◌, ◌^◌, ◌<◌, ◌≡◌, refl, arith, false, List, length, ◌==◌, nat_eq, test_refl,
}
use peer_net.Act.{Outcome, ok, err, panicked, unfinished}
use peer_net.Os.{Os}
use peer_net.World.{World}
use peer_net.Endpoint.{TcpEndpoint}
use peer_net.Tcp.Framing.{send_timeout, receive}
use peer_net.Tcp.Framing.Sends.{Sent, send_timeout-Sent}
use peer_net.Tcp.Framing.Receives.{Received, receive-Received}
use peer_net.Tcp.Stream.{IsStream}
use peer_net.Manager.{Manager, get_total_bytes_received, get_total_bytes_sent}

-- A total after a call on a message of some size: it grew by the size, modulo 2 ^ 64, where the call
-- succeeded, and is as before where it failed.
abbrev pub Counted : {A : Type 0} → (A → ℕ) → ℕ → Outcome A → ℕ → Type 0
Counted size before (ok a) after = after ≡ (before + size a) % 2 ^ 64
Counted size before (err _) after = after ≡ before
Counted size before panicked after = ⊥
Counted size before unfinished after = ⊥

module _ {os : Os} {PeerId Ctx : Type 0} (m : Manager os PeerId Ctx) where
  abbrev pub in_world : World os → Manager os PeerId Ctx
  in_world w = record m { shared = record m.shared { world = w } }

  module _ (stream : IsStream os) (fuel : ℕ) (e : TcpEndpoint) where
    Sent-Counted :
        (bytes : List ℕ)
        → e.total_bytes_sent ≡ m.total_bytes_sent
        → (m.total_bytes_sent == e.endpoint_bytes_sent) ≡ false
        → (o : Outcome (Unit {0})) (w : World os) → Sent os stream fuel e bytes m.shared.world o w
        → Counted (λ _. length bytes) (get_total_bytes_sent m) o (get_total_bytes_sent (in_world w))
    unfolding get_total_bytes_sent
    Sent-Counted bytes shared apart (ok _) w (_, _, counted) =
        rw (counted, shared, apart) (rw (test_refl m.total_bytes_sent) refl)
    Sent-Counted bytes shared apart (err _) w same = rw same refl
    Sent-Counted bytes shared apart panicked w h = h
    Sent-Counted bytes shared apart unfinished w h = h

    Received-Counted :
        e.total_bytes_received ≡ m.total_bytes_received
        → (m.total_bytes_received == e.endpoint_bytes_received) ≡ false
        → (o : Outcome (List ℕ)) (w : World os) → Received os stream fuel e m.shared.world o w
        → Counted
            (λ bytes. length bytes)
            (get_total_bytes_received m)
            o
            (get_total_bytes_received (in_world w))
    unfolding get_total_bytes_received
    Received-Counted shared apart (ok bytes) w (_, counted, _) =
        rw (counted, shared, apart) (rw (test_refl m.total_bytes_received) refl)
    Received-Counted shared apart (err _) w (same, _) = rw same refl
    Received-Counted shared apart panicked w h = h
    Received-Counted shared apart unfinished w h = h

    -- On a TCP endpoint that shares the totals of a manager and has counters of its own, and with
    -- fuel for each byte and each tick of the timeout: the total of bytes sent grows by the length of a
    -- message where sending it succeeds, modulo 2 ^ 64, and is kept where it fails; so does the total of
    -- bytes received with the message that is received.
    pub totals-Counted :
        (bytes : List ℕ) (timeout : ℕ)
        → e.total_bytes_sent ≡ m.total_bytes_sent
        → (m.total_bytes_sent == e.endpoint_bytes_sent) ≡ false
        → e.total_bytes_received ≡ m.total_bytes_received
        → (m.total_bytes_received == e.endpoint_bytes_received) ≡ false
        → length bytes < fuel
        → e.config.max_message_size % 2 ^ 32 + e.config.read_timeout + 4 < fuel
        → Counted
            (λ _. length bytes)
            (get_total_bytes_sent m)
            (send_timeout os fuel e bytes timeout m.shared.world).0
            (get_total_bytes_sent
              (in_world (send_timeout os fuel e bytes timeout m.shared.world).1))
          × Counted
              (λ bytes. length bytes)
              (get_total_bytes_received m)
              (receive os fuel e m.shared.world).0
              (get_total_bytes_received (in_world (receive os fuel e m.shared.world).1))
    totals-Counted bytes timeout sent sent_apart got got_apart fits enough = (
      Sent-Counted bytes sent sent_apart _ _ (
          send_timeout-Sent os stream fuel e bytes m.shared.world timeout fits
            (omega (arith, enough))),
      Received-Counted got got_apart _ _ (receive-Received os stream fuel e m.shared.world enough),
    )
