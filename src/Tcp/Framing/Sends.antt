-- ===== src/Tcp/Framing/Sends.antt =====
-- What `send` and `send_timeout` put on the wire.
use mathlib.Core.List.{append_assoc}
use peer_net.Base.{
  ℕ, ◌-◌, ◌%◌, ◌^◌, ◌<◌, ◌≡◌, refl, ◌∙◌, ap, some, List, ◌++◌, arith, length, Bool-cases, inl, inr,
  leb,
}
use peer_net.Error.{error, send_error}
use peer_net.Act.{Outcome, ok, err, panicked, unfinished, ◌>>=◌, modify, Continues, bind_rule}
use peer_net.Os.{Os}
use peer_net.World.{World, add_to, grown}
use peer_net.Endpoint.{TcpEndpoint}
use peer_net.Tcp.Exact.{write_exact_timeout}
use peer_net.Tcp.Exact.Writes.{
  sent_at, Written, write_exact_timeout-Written, write_exact_timeout_long,
}
use peer_net.Tcp.Framing.{to_be_bytes, from_be_bytes, count_sent, send_timeout}
use peer_net.Tcp.Stream.{IsStream}

-- Four bytes hold any `u32`.
pub from_be_bytes-to_be_bytes : (n : ℕ) → n < 2 ^ 32 → from_be_bytes (to_be_bytes n) ≡ n
unfolding from_be_bytes to_be_bytes
from_be_bytes-to_be_bytes n h = omega arith

pub length-to_be_bytes : (n : ℕ) → length (to_be_bytes n) ≡ 4
unfolding to_be_bytes
length-to_be_bytes n = refl

-- A message on the wire.
abbrev pub frame : List ℕ → List ℕ
frame bytes = to_be_bytes (length bytes) ++ bytes

module _ (os : Os) (stream : IsStream os) (fuel : ℕ) (e : TcpEndpoint) (bytes : List ℕ)
    (w₀ : World os) where
  -- How sending from `w₀` may end.
  abbrev pub Sent : Outcome (Unit {0}) → World os → Type 0
  Sent (ok _) w =
      (length bytes < 2 ^ 32)
      × (sent_at os stream e w ≡ sent_at os stream e w₀ ++ frame bytes)
      × (w.counters
          ≡ grown e.endpoint_bytes_sent (length bytes)
              (grown e.total_bytes_sent (length bytes) w₀.counters))
  Sent (err _) w = w.counters ≡ w₀.counters
  Sent panicked w = ⊥
  Sent unfinished w = ⊥

  after_body-Sent :
      length bytes < 2 ^ 32
      → (o : Outcome ℕ) (v w : World os)
      → sent_at os stream e v ≡ sent_at os stream e w₀ ++ to_be_bytes (length bytes)
      → v.counters ≡ w₀.counters
      → Continues (Written os stream e bytes v) Sent (λ _. modify (count_sent e (length bytes))) o w
  unfolding count_sent add_to
  after_body-Sent small (ok _) v w out same = λ h. (
    small,
    h.0 ∙ ap (λ r. r ++ bytes) out ∙ append_assoc (sent_at os stream e w₀) _ bytes,
    rw (h.1, same),
  )
  after_body-Sent small (err _) v w out same = λ h. h.0 ∙ same
  after_body-Sent small panicked v w out same = λ h. h
  after_body-Sent small unfinished v w out same = λ h. h

  after_header-Sent :
      length bytes < 2 ^ 32
      → length bytes < fuel
      → (timeout : ℕ) (o : Outcome ℕ) (v : World os)
      → Continues
          (Written os stream e (to_be_bytes (length bytes)) w₀)
          Sent
          (λ elapsed. write_exact_timeout os fuel e bytes (timeout - elapsed) >>= λ _.
            modify (count_sent e (length bytes)))
          o
          v
  after_header-Sent small enough timeout (ok elapsed) v = λ h.
      bind_rule (Written os stream e bytes v) Sent
        (write_exact_timeout os fuel e bytes (timeout - elapsed))
        (λ _. modify (count_sent e (length bytes))) v
        (write_exact_timeout-Written os stream fuel e bytes (timeout - elapsed) v enough)
        (λ o w. after_body-Sent small o v w h.0 h.1)
  after_header-Sent small enough timeout (err _) v = λ h. h.0
  after_header-Sent small enough timeout panicked v = λ h. h
  after_header-Sent small enough timeout unfinished v = λ h. h

  -- With fuel for each byte, sending ends: the frame of the message is put out and both counters
  -- grow by its length, or the call failed and no counter changed.
  pub send_timeout-Sent :
      (timeout : ℕ)
      → length bytes < fuel
      → 4 < fuel
      → Sent (send_timeout os fuel e bytes timeout w₀).0 (send_timeout os fuel e bytes timeout w₀).1
  unfolding send_timeout
  send_timeout-Sent timeout enough four = elim (Bool-cases (leb (2 ^ 32) (length bytes))) [
    | inl huge ↦ rw huge refl
    | inr small ↦ rw small (
        bind_rule (Written os stream e (to_be_bytes (length bytes)) w₀) Sent
          (write_exact_timeout os fuel e (to_be_bytes (length bytes)) timeout)
          (λ elapsed. write_exact_timeout os fuel e bytes (timeout - elapsed) >>= λ _.
            modify (count_sent e (length bytes)))
          w₀
          (write_exact_timeout-Written os stream fuel e (to_be_bytes (length bytes)) timeout w₀
            (rw length-to_be_bytes four))
          (after_header-Sent (ground arith) enough timeout))
  ]

-- A message over the limit is refused only after the four bytes of its size are out: the call fails
-- and the stream keeps a size that no message follows.
pub send_long :
    (os : Os) (stream : IsStream os) (fuel : ℕ) (e : TcpEndpoint) (bytes : List ℕ) (timeout : ℕ)
    (w v : World os) {t : ℕ}
    → 4 < fuel
    → length bytes < 2 ^ 32
    → e.config.max_message_size % 2 ^ 32 < length bytes
    → write_exact_timeout os fuel e (to_be_bytes (length bytes)) timeout w ≡ (ok t, v)
    → (send_timeout os fuel e bytes timeout w
        ≡ (err (error send_error "send len too long" (some (os.show (length bytes)))), v))
      × (sent_at os stream e v ≡ sent_at os stream e w ++ to_be_bytes (length bytes))
unfolding send_timeout
send_long os stream fuel e bytes timeout w v {t} four small long header = (
  elim (Bool-cases (leb (2 ^ 32) (length bytes))) [
    | inl huge ↦ absurd (ground arith)
    | inr fits ↦
        rw (fits, header) (rw (write_exact_timeout_long os fuel e bytes (timeout - t) v small long))
  ],
  (rw header at (
      write_exact_timeout-Written os stream fuel e (to_be_bytes (length bytes)) timeout w
        (rw length-to_be_bytes four))).0,
)
