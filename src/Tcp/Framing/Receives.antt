-- ===== src/Tcp/Framing/Receives.antt =====
-- What `receive` takes off the wire.
use mathlib.Core.List.{append_assoc}
use peer_net.Base.{
  ℕ, ◌+◌, ◌-◌, ◌%◌, ◌^◌, ◌≤◌, ◌<◌, ◌≡◌, ◌∙◌, sym, ap, List, ◌++◌, arith, length, length-append,
  append-split, Bool-cases, inl, inr, ltb,
}
use peer_net.Error.{time_out}
use peer_net.Act.{Outcome, ok, err, panicked, unfinished, ◌>>◌, pure, modify, Continues, bind_rule}
use peer_net.Os.{Os}
use peer_net.World.{World, add_to, grown}
use peer_net.Endpoint.{TcpEndpoint}
use peer_net.Tcp.Exact.{read_exact_timeout}
use peer_net.Tcp.Exact.Reads.{arrives_at, Read, read_exact_timeout-Read}
use peer_net.Tcp.Framing.{from_be_bytes, to_be_bytes, count_received, receive, receive_body}
use peer_net.Tcp.Framing.Sends.{frame, from_be_bytes-to_be_bytes, length-to_be_bytes}
use peer_net.Tcp.Stream.{IsStream}

module _ (os : Os) (stream : IsStream os) (fuel : ℕ) (e : TcpEndpoint) (w₀ : World os) where
  abbrev limit : ℕ
  limit = e.config.max_message_size % 2 ^ 32

  -- How receiving from `w₀` may end.
  abbrev pub Received : Outcome (List ℕ) → World os → Type 0
  Received (ok bytes) w =
      (length bytes ≤ limit)
      × (w.counters
          ≡ grown e.endpoint_bytes_received (length bytes)
              (grown e.total_bytes_received (length bytes) w₀.counters))
      × ((header : List ℕ) × (length header ≡ 4)
          × (from_be_bytes header ≡ length bytes)
          × (arrives_at os stream e w₀ ≡ header ++ (bytes ++ arrives_at os stream e w)))
  Received (err x) w =
      (w.counters ≡ w₀.counters)
      × (x.error_type ≡ time_out
          → (lost : List ℕ) × (length lost < 4 + limit)
            × (arrives_at os stream e w₀ ≡ lost ++ arrives_at os stream e w))
  Received panicked w = ⊥
  Received unfinished w = ⊥

  module _ (header : List ℕ) (v : World os) (four : length header ≡ 4)
      (came : arrives_at os stream e w₀ ≡ header ++ arrives_at os stream e v)
      (same : v.counters ≡ w₀.counters) (fits : from_be_bytes header ≤ limit) where
    after_body-Received :
        (o : Outcome (List ℕ × ℕ)) (w : World os)
        → Continues
            (Read os stream e (from_be_bytes header) v)
            Received
            (λ (bytes, _). modify (count_received e (from_be_bytes header)) >> pure bytes)
            o
            w
    unfolding count_received add_to
    after_body-Received (ok (bytes, _)) w = λ h. (
      omega (arith, h.0, fits),
      rw (h.0, h.2, same),
      (header, four, sym h.0, came ∙ ap (◌++◌ header) h.1),
    )
    after_body-Received (err x) w = λ h. (
      h.0 ∙ same,
      λ late.
          let (lost, few, rest) = h.1 late in
          (
            header ++ lost,
            omega (arith, length-append header lost, few, fits, four),
            rw append_assoc (came ∙ ap (◌++◌ header) rest),
          ),
    )
    after_body-Received panicked w = λ h. h
    after_body-Received unfinished w = λ h. h

  after_header-Received :
      limit + e.config.read_timeout + 4 < fuel
      → (o : Outcome (List ℕ × ℕ)) (v : World os)
      → Continues
          (Read os stream e 4 w₀)
          Received
          (λ (header, elapsed). receive_body os fuel e elapsed (from_be_bytes header))
          o
          v
  unfolding receive_body
  after_header-Received enough (ok (header, elapsed)) v = λ (four, came, same).
      let timeout = e.config.read_timeout - elapsed in
      let size = from_be_bytes header in
      elim (Bool-cases (ltb limit size)) [
        | inl long ↦ rw long (same, λ h. cc h)
        | inr fits ↦
            let le : size ≤ limit = ground arith in
            rw fits (
              bind_rule (Read os stream e size v) Received
                (read_exact_timeout os fuel e size timeout)
                (λ (bytes, _). modify (count_received e size) >> pure bytes) v
                (read_exact_timeout-Read os stream fuel e size timeout v (omega arith))
                (after_body-Received header v four came same le))
      ]
  after_header-Received enough (err x) v = λ (same, late).
      (same, λ h. let (lost, few, rest) = late h in (lost, omega (arith, few), rest))
  after_header-Received enough panicked v = λ h. h
  after_header-Received enough unfinished v = λ h. h

  -- With fuel for each byte and each tick of the timeout, receiving ends. On success it has taken
  -- exactly one frame off the stream, within the limit, and both counters grew by the length of the
  -- message. On failure no counter changed; if it ran out of time, the part of the frame that it had
  -- read is gone from the stream.
  pub receive-Received :
      limit + e.config.read_timeout + 4 < fuel
      → Received (receive os fuel e w₀).0 (receive os fuel e w₀).1
  unfolding receive
  receive-Received enough =
      bind_rule (Read os stream e 4 w₀) Received
        (read_exact_timeout os fuel e 4 e.config.read_timeout)
        (λ (header, elapsed). receive_body os fuel e elapsed (from_be_bytes header)) w₀
        (read_exact_timeout-Read os stream fuel e 4 e.config.read_timeout w₀ (omega arith))
        (after_header-Received enough)

-- What is received from a stream that begins with a frame is the message of that frame, and the
-- stream goes on behind it.
pub receive-frame :
    (os : Os) (stream : IsStream os) (fuel : ℕ) (e : TcpEndpoint) (w v : World os)
    (sent got rest : List ℕ)
    → e.config.max_message_size % 2 ^ 32 + e.config.read_timeout + 4 < fuel
    → length sent < 2 ^ 32
    → arrives_at os stream e w ≡ frame sent ++ rest
    → receive os fuel e w ≡ (ok got, v)
    → (got ≡ sent) × (arrives_at os stream e v ≡ rest)
receive-frame os stream fuel e w v sent got rest enough small starts result =
    let (_, _, (header, four, size, taken)) =
      rw result at (receive-Received os stream fuel e w enough) in
    let whole : header ++ (got ++ arrives_at os stream e v)
        ≡ to_be_bytes (length sent) ++ (sent ++ rest) =
      sym taken ∙ starts ∙ append_assoc (to_be_bytes (length sent)) sent rest in
    let (head, tail) = append-split header _ _ _ (four ∙ sym (length-to_be_bytes _)) whole in
    let same : length got ≡ length sent =
      sym size ∙ ap from_be_bytes head ∙ from_be_bytes-to_be_bytes (length sent) small in
    append-split got sent _ _ same tail
