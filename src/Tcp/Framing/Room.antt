-- ===== src/Tcp/Framing/Room.antt =====
-- `send_timeout` on a stream that has room.
use mathlib.Core.List.{append_assoc}
use peer_net.Base.{
  ℕ, ◌-◌, ◌%◌, ◌^◌, ◌≤◌, ◌<◌, ◌≡◌, refl, ◌∙◌, ap, List, ◌++◌, false, arith, length, leb,
}
use peer_net.Act.{Outcome, ok, err, panicked, unfinished, ◌>>=◌, modify, Continues, bind_rule}
use peer_net.Os.{Os}
use peer_net.World.{World, time, add_to, grown}
use peer_net.Endpoint.{TcpEndpoint}
use peer_net.Tcp.Exact.{write_exact_timeout}
use peer_net.Tcp.Exact.Room.{HasRoom, Put, write_exact_timeout-Put}
use peer_net.Tcp.Exact.Writes.{sent_at}
use peer_net.Tcp.Framing.{to_be_bytes, count_sent, send_timeout}
use peer_net.Tcp.Framing.Sends.{frame, length-to_be_bytes}
use peer_net.Tcp.Stream.{IsStream}

module _ (os : Os) (stream : IsStream os) (e : TcpEndpoint) (w₀ : World os) (bytes : List ℕ) where
  -- The frame was sent in no time.
  abbrev pub Posted : Outcome (Unit {0}) → World os → Type 0
  Posted (ok _) w =
      (sent_at os stream e w ≡ sent_at os stream e w₀ ++ frame bytes)
      × (time w ≡ time w₀)
      × (w.counters
          ≡ grown e.endpoint_bytes_sent (length bytes)
              (grown e.total_bytes_sent (length bytes) w₀.counters))
  Posted (err _) w = ⊥
  Posted panicked w = ⊥
  Posted unfinished w = ⊥

  after_body-Posted :
      (v : World os)
      → sent_at os stream e v ≡ sent_at os stream e w₀ ++ to_be_bytes (length bytes)
      → time v ≡ time w₀
      → v.counters ≡ w₀.counters
      → (o : Outcome ℕ) (w : World os)
      → Continues (Put os stream e bytes v) Posted (λ _. modify (count_sent e (length bytes))) o w
  unfolding count_sent add_to
  after_body-Posted v out clock same (ok _) w = λ (put, still, kept, _). (
    put ∙ ap (λ r. r ++ bytes) out ∙ append_assoc (sent_at os stream e w₀) _ bytes,
    still ∙ clock,
    rw (kept, same) refl,
  )
  after_body-Posted v out clock same (err _) w = λ h. h
  after_body-Posted v out clock same panicked w = λ h. h
  after_body-Posted v out clock same unfinished w = λ h. h

  module _ (room : HasRoom os stream e.stream) (fuel timeout : ℕ) (more : 0 < timeout)
      (fits : length bytes ≤ e.config.max_message_size % 2 ^ 32)
      (enough : length bytes < fuel) where
    after_header-Posted :
        (o : Outcome ℕ) (v : World os)
        → Continues
            (Put os stream e (to_be_bytes (length bytes)) w₀)
            Posted
            (λ elapsed. write_exact_timeout os fuel e bytes (timeout - elapsed) >>= λ _.
              modify (count_sent e (length bytes)))
            o
            v
    after_header-Posted (ok elapsed) v = λ (out, clock, same, at_once).
        bind_rule (Put os stream e bytes v) Posted
          (write_exact_timeout os fuel e bytes (timeout - elapsed))
          (λ _. modify (count_sent e (length bytes))) v
          (write_exact_timeout-Put os stream e bytes v room (timeout - elapsed) fuel fits
            (omega (arith, at_once, more)) enough)
          (after_body-Posted v out clock same)
    after_header-Posted (err _) v = λ h. h
    after_header-Posted panicked v = λ h. h
    after_header-Posted unfinished v = λ h. h

    -- Where the stream takes at once what it is given, the timeout is not 0, the message and the four
    -- bytes of its size are within the limit, and there is fuel for each byte, the message is sent: the
    -- call succeeds, takes no time, puts out the frame, and both counters grow by the length.
    pub send_timeout-Posted :
        4 ≤ e.config.max_message_size % 2 ^ 32
        → 4 < fuel
        → Posted
            (send_timeout os fuel e bytes timeout w₀).0
            (send_timeout os fuel e bytes timeout w₀).1
    unfolding send_timeout
    send_timeout-Posted header four =
        let small : leb (2 ^ 32) (length bytes) ≡ false = ground (arith, fits) in
        rw small (
          bind_rule (Put os stream e (to_be_bytes (length bytes)) w₀) Posted
            (write_exact_timeout os fuel e (to_be_bytes (length bytes)) timeout)
            (λ elapsed. write_exact_timeout os fuel e bytes (timeout - elapsed) >>= λ _.
              modify (count_sent e (length bytes)))
            w₀
            (write_exact_timeout-Put os stream e (to_be_bytes (length bytes)) w₀ room timeout fuel
              (rw length-to_be_bytes header) more (rw length-to_be_bytes four))
            after_header-Posted)
