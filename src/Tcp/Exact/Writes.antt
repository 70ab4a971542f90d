-- ===== src/Tcp/Exact/Writes.antt =====
-- What `write_exact_timeout` puts out.
use mathlib.Core.List.{append_assoc, append-nil}
use peer_net.Base.{
  ℕ, ◌-◌, ◌%◌, ◌^◌, ◌≤◌, ◌<◌, ◌≡◌, refl, ◌∙◌, sym, ap, Option, some, none, List, ◌++◌, arith,
  String, length, length-drop, take, take-add, take-length, drop, Bool-cases, inl, inr, ltb, ltb→lt,
  leb, pos_of_test, ◌==◌, nat_eq,
}
use peer_net.Error.{error, time_out, send_error}
use peer_net.Act.{Outcome, ok, err, panicked, unfinished}
use peer_net.Os.{Os, WriteResult, wrote, write_failed}
use peer_net.World.{World, time}
use peer_net.Loop.{Step, Keeps, repeat_ends}
use peer_net.Endpoint.{TcpEndpoint}
use peer_net.Tcp.Exact.{
  write_round, write_exact_timeout, write_some, after_write, shutdown, elapsed,
}
use peer_net.Tcp.Stream.{IsStream, WriteLaw, prepare_write_law}

-- The bytes that the endpoint has put out.
abbrev pub sent_at : (os : Os) → IsStream os → TcpEndpoint → World os → List ℕ
sent_at os stream e w = stream.output e.stream w.state

-- How a write of `bytes` from `w₀` may end.
abbrev pub Written :
    (os : Os) → IsStream os → TcpEndpoint → List ℕ → World os → Outcome ℕ → World os → Type 0
Written os stream e bytes w₀ (ok t) w =
    (sent_at os stream e w ≡ sent_at os stream e w₀ ++ bytes) × (w.counters ≡ w₀.counters)
Written os stream e bytes w₀ (err x) w =
    (w.counters ≡ w₀.counters)
    × (x.error_type ≡ time_out
        → (n : ℕ) × (n < length bytes)
          × (sent_at os stream e w ≡ sent_at os stream e w₀ ++ take n bytes))
Written os stream e bytes w₀ panicked w = ⊥
Written os stream e bytes w₀ unfinished w = ⊥

module _ (os : Os) (stream : IsStream os) (e : TcpEndpoint) (start timeout : ℕ) (bytes : List ℕ)
    (w₀ : World os) where
  abbrev sent : World os → List ℕ
  sent = sent_at os stream e

  -- Midway, the first `count` bytes are out.
  record Mid (count : ℕ) (w : World os) : Type 0 where
    room : count ≤ length bytes
    out : sent w ≡ sent w₀ ++ take count bytes
    kept : w.counters ≡ w₀.counters

  abbrev Rounds : ℕ → Step ℕ ℕ → World os → Type 0
  Rounds m = Keeps (λ n w. Mid n w × (length bytes - n < m)) (Written os stream e bytes w₀)

  after_write-Rounds :
      (count : ℕ) (w : World os) (r : WriteResult) (t : World os)
      → Mid count w
      → count < length bytes
      → WriteLaw os stream.output e.stream (drop count bytes) w.state r t.state
      → t.counters ≡ w.counters
      → Rounds (length bytes - count) (after_write os e count r t).0 (after_write os e count r t).1
  unfolding after_write shutdown
  after_write-Rounds count w (wrote n) t mid short law same = elim (Bool-cases (n == 0)) [
    | inl nothing ↦ rw nothing (same ∙ mid.kept, λ h. cc h)
    | inr some_bytes ↦ rw some_bytes (
      record {
        room = omega (arith, law.0, length-drop count bytes);
        out =
            law.1
            ∙ ap (λ r. r ++ take n (drop count bytes)) mid.out
            ∙ append_assoc (sent w₀) (take count bytes) (take n (drop count bytes))
            ∙ ap (◌++◌ (sent w₀)) (sym (take-add count n bytes));
        kept = same ∙ mid.kept;
      },
      omega (arith, pos_of_test n some_bytes),
    )
  ]
  after_write-Rounds count w (write_failed kind text) t mid short law same =
      (same ∙ mid.kept, λ h. cc h)

  write_some-Rounds :
      (count : ℕ) (set : Option String) (w : World os)
      → Mid count w
      → count < length bytes
      → Rounds
          (length bytes - count)
          (write_some os e bytes count set w).0
          (write_some os e bytes count set w).1
  unfolding write_some
  write_some-Rounds count (some text) w mid short = (mid.kept, λ h. cc h)
  write_some-Rounds count none w mid short =
      after_write-Rounds count w _ _ mid short
        (stream.write_law e.stream (drop count bytes) w.state) refl

  write_round-Rounds :
      (count : ℕ) (w : World os)
      → Mid count w
      → Rounds
          (length bytes - count)
          (write_round os e start timeout bytes count w).0
          (write_round os e start timeout bytes count w).1
  unfolding write_round
  write_round-Rounds count w mid =
      let law = prepare_write_law stream e.stream (timeout - elapsed os start w) w.state in
      elim (Bool-cases (ltb count (length bytes))) [
        | inl short ↦ elim (Bool-cases ((timeout - elapsed os start w) == 0)) [
          | inl over ↦ rw (short, over) (mid.kept, λ _. (count, ltb→lt _ _ short, mid.out))
          | inr more ↦
              rw (short, more)
                (write_some-Rounds count _ _
                  (record { room = mid.room; out = sym law.0 ∙ mid.out; kept = mid.kept })
                  (ltb→lt _ _ short))
        ]
        | inr full ↦
            rw full
              (mid.out ∙ ap (◌++◌ (sent w₀)) (take-length count bytes (ground arith)), mid.kept)
      ]

-- A message longer than the limit, cut to 32 bits, is refused before a byte of it is written.
pub write_exact_timeout_long :
    (os : Os) (fuel : ℕ) (e : TcpEndpoint) (bytes : List ℕ) (timeout : ℕ) (w : World os)
    → length bytes < 2 ^ 32
    → e.config.max_message_size % 2 ^ 32 < length bytes
    → write_exact_timeout os fuel e bytes timeout w
      ≡ (err (error send_error "send len too long" (some (os.show (length bytes)))), w)
unfolding write_exact_timeout
write_exact_timeout_long os fuel e bytes timeout w short long = ground arith

module _ (os : Os) (stream : IsStream os) (fuel : ℕ) (e : TcpEndpoint) (bytes : List ℕ)
    (timeout : ℕ) (w : World os) where
  -- With fuel for each byte the loop ends: all bytes are put out in order, or the call failed. It
  -- touches no counter.
  pub write_exact_timeout-Written :
      length bytes < fuel
      → Written os stream e bytes w
          (write_exact_timeout os fuel e bytes timeout w).0
          (write_exact_timeout os fuel e bytes timeout w).1
  unfolding write_exact_timeout
  write_exact_timeout-Written enough = elim (Bool-cases (leb (2 ^ 32) (length bytes))) [
    | inl huge ↦ rw huge (refl, λ h. cc h)
    | inr small ↦ elim (Bool-cases (ltb (e.config.max_message_size % 2 ^ 32) (length bytes))) [
      | inl long ↦ rw (small, long) (refl, λ h. cc h)
      | inr fits ↦
          rw (small, fits)
            (repeat_ends (Mid os stream e (time w) timeout bytes w) (Written os stream e bytes w)
              (write_round os e (time w) timeout bytes) (λ n _. length bytes - n)
              (write_round-Rounds os stream e (time w) timeout bytes w) fuel 0 w (omega arith)
              (record { room = omega arith; out = sym (append-nil _); kept = refl }))
    ]
  ]
