-- ===== src/Tcp/Framing/Prompt.antt =====
-- `receive` on a stream that has a whole frame ready.
use mathlib.Core.List.{append_assoc}
use peer_net.Base.{
  ℕ, ◌-◌, ◌%◌, ◌^◌, ◌≤◌, ◌<◌, ◌≡◌, refl, sym, ◌∙◌, ap, List, ◌++◌, arith, length, length-append,
  append-split, Bool-cases, inl, inr, ltb,
}
use peer_net.Act.{Outcome, ok, err, panicked, unfinished, ◌>>◌, pure, modify, Continues, bind_rule}
use peer_net.Os.{Os}
use peer_net.World.{World, time, add_to, grown}
use peer_net.Endpoint.{TcpEndpoint}
use peer_net.Tcp.Exact.{read_exact_timeout}
use peer_net.Tcp.Exact.Reads.{arrives_at}
use peer_net.Tcp.Exact.Prompt.{IsPrompt, Ready, read_exact_timeout-Ready}
use peer_net.Tcp.Framing.{to_be_bytes, from_be_bytes, count_received, receive_body, receive}
use peer_net.Tcp.Framing.Sends.{frame, length-to_be_bytes, from_be_bytes-to_be_bytes}
use peer_net.Tcp.Stream.{IsStream}

module _ (os : Os) (stream : IsStream os) (e : TcpEndpoint) (w₀ : World os)
    (sent rest : List ℕ) where
  -- The message was received in no time, and the stream goes on behind it.
  abbrev pub Arrived : Outcome (List ℕ) → World os → Type 0
  Arrived (ok bytes) w =
      (bytes ≡ sent)
      × (arrives_at os stream e w ≡ rest)
      × (time w ≡ time w₀)
      × (w.counters
          ≡ grown e.endpoint_bytes_received (length sent)
              (grown e.total_bytes_received (length sent) w₀.counters))
  Arrived (err _) w = ⊥
  Arrived panicked w = ⊥
  Arrived unfinished w = ⊥

  after_body-Arrived :
      (v : World os)
      → arrives_at os stream e v ≡ sent ++ rest
      → time v ≡ time w₀
      → v.counters ≡ w₀.counters
      → (o : Outcome (List ℕ × ℕ)) (w : World os)
      → Continues
          (Ready os stream e (length sent) v)
          Arrived
          (λ (bytes, _). modify (count_received e (length sent)) >> pure bytes)
          o
          w
  unfolding count_received add_to
  after_body-Arrived v came clock same (ok (bytes, _)) w = λ (long, whole, still, kept, _).
      let (is_sent, behind) = append-split bytes _ _ _ long (sym whole ∙ came) in
      (is_sent, behind, still ∙ clock, rw (kept, same) refl)
  after_body-Arrived v came clock same (err x) w = λ h. h
  after_body-Arrived v came clock same panicked w = λ h. h
  after_body-Arrived v came clock same unfinished w = λ h. h

  module _ (prompt : IsPrompt os stream e.stream) (fuel : ℕ) where
    after_header-Arrived :
        0 < e.config.read_timeout
        → length sent ≤ e.config.max_message_size % 2 ^ 32
        → length sent < fuel
        → arrives_at os stream e w₀ ≡ frame sent ++ rest
        → (o : Outcome (List ℕ × ℕ)) (v : World os)
        → Continues
            (Ready os stream e 4 w₀)
            Arrived
            (λ (header, elapsed). receive_body os fuel e elapsed (from_be_bytes header))
            o
            v
    unfolding receive_body
    after_header-Arrived more fits enough starts (ok (header, elapsed)) v =
        λ (four, whole, clock, same, at_once).
          let (head, came) =
            append-split header _ _ _ (four ∙ sym (length-to_be_bytes (length sent)))
              (sym whole ∙ starts ∙ append_assoc (to_be_bytes (length sent)) sent rest) in
          let size : from_be_bytes header ≡ length sent =
            ap from_be_bytes head ∙ from_be_bytes-to_be_bytes (length sent) (omega arith) in
          let timeout = e.config.read_timeout - elapsed in
          elim (Bool-cases (ltb (e.config.max_message_size % 2 ^ 32) (length sent))) [
            | inl long ↦ absurd (ground (arith, fits))
            | inr small ↦
                rw (size, small)
                  (bind_rule (Ready os stream e (length sent) v) Arrived
                    (read_exact_timeout os fuel e (length sent) timeout)
                    (λ (bytes, _). modify (count_received e (length sent)) >> pure bytes) v
                    (read_exact_timeout-Ready os stream e (length sent) v prompt timeout fuel
                      (omega (arith, ap length came, length-append sent rest))
                      (omega (arith, at_once, more)) enough)
                    (after_body-Arrived v came clock same))
          ]
    after_header-Arrived more fits enough starts (err x) v = λ h. h
    after_header-Arrived more fits enough starts panicked v = λ h. h
    after_header-Arrived more fits enough starts unfinished v = λ h. h

    -- Where a prompt stream has a whole frame within the limit ready, the timeout is not 0, and
    -- there is fuel for each byte, its message is received: the call succeeds, takes no time, leaves
    -- the stream behind the frame, and both counters grow by the length of the message.
    pub receive-Arrived :
        0 < e.config.read_timeout
        → length sent ≤ e.config.max_message_size % 2 ^ 32
        → length sent < fuel
        → 4 < fuel
        → arrives_at os stream e w₀ ≡ frame sent ++ rest
        → Arrived (receive os fuel e w₀).0 (receive os fuel e w₀).1
    unfolding receive
    receive-Arrived more fits enough four starts =
        bind_rule (Ready os stream e 4 w₀) Arrived
          (read_exact_timeout os fuel e 4 e.config.read_timeout)
          (λ (header, elapsed). receive_body os fuel e elapsed (from_be_bytes header)) w₀
          (read_exact_timeout-Ready os stream e 4 w₀ prompt e.config.read_timeout fuel
            (omega (
              arith,
              ap length starts,
              length-append (frame sent) rest,
              length-append (to_be_bytes (length sent)) sent,
              length-to_be_bytes (length sent),
            ))
            more four)
          (after_header-Arrived more fits enough starts)
