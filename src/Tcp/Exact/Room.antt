-- ===== src/Tcp/Exact/Room.antt =====
-- `write_exact_timeout` on a stream that has room.
use mathlib.Core.List.{append_assoc, append-nil}
use peer_net.Base.{
  ℕ, ◌-◌, ◌%◌, ◌^◌, ◌≤◌, ◌<◌, ◌≡◌, refl, ◌∙◌, sym, ap, none, List, ◌++◌, arith, length, length-drop,
  take, take-add, take-length, drop, Bool-cases, inl, inr, ltb, ltb→lt, leb, ◌==◌, nat_eq, false,
}
use peer_net.Act.{Outcome, ok, err, panicked, unfinished}
use peer_net.Os.{Os, wrote}
use peer_net.World.{World, time}
use peer_net.Loop.{Step, Keeps, repeat_ends}
use peer_net.Endpoint.{TcpEndpoint}
use peer_net.Tcp.Exact.{write_round, write_exact_timeout, write_some, after_write, elapsed}
use peer_net.Tcp.Exact.Writes.{sent_at}
use peer_net.Tcp.Stream.{IsStream, prepare_write_law}

-- The stream behind a handle takes at once some of what it is given, and its timeouts can be set.
pub record HasRoom (os : Os) (stream : IsStream os) (h : ℕ) : Type 0 where
  pub write_ready :
      (bytes : List ℕ) (s : os.State)
      → 0 < length bytes
      → (n : ℕ) × (0 < n)
        × ((os.write h bytes s).0 ≡ wrote n)
        × (os.now (os.write h bytes s).1 ≡ os.now s)
  pub prepare_ready :
      (t : ℕ) (s : os.State)
      → ((os.set_write_timeout h t (os.limit_write h t s)).0 ≡ none)
        × (os.now (os.set_write_timeout h t (os.limit_write h t s)).1 ≡ os.now s)

module _ (os : Os) (stream : IsStream os) (e : TcpEndpoint) (bytes : List ℕ) (w₀ : World os) where
  abbrev sent : World os → List ℕ
  sent = sent_at os stream e

  -- All bytes were written, in no time.
  abbrev pub Put : Outcome ℕ → World os → Type 0
  Put (ok t) w =
      (sent w ≡ sent w₀ ++ bytes) × (time w ≡ time w₀) × (w.counters ≡ w₀.counters) × (t ≡ 0)
  Put (err _) w = ⊥
  Put panicked w = ⊥
  Put unfinished w = ⊥

  record Mid (count : ℕ) (w : World os) : Type 0 where
    room : count ≤ length bytes
    out : sent w ≡ sent w₀ ++ take count bytes
    clock : time w ≡ time w₀
    kept : w.counters ≡ w₀.counters

  abbrev Rounds : ℕ → Step ℕ ℕ → World os → Type 0
  Rounds m = Keeps (λ n w. Mid n w × (length bytes - n < m)) Put

  module _ (ready : HasRoom os stream e.stream) (timeout : ℕ) where
    write_round-Rounds :
        0 < timeout
        → (count : ℕ) (w : World os) → Mid count w
        → Rounds
            (length bytes - count)
            (write_round os e (time w₀) timeout bytes count w).0
            (write_round os e (time w₀) timeout bytes count w).1
    unfolding write_round write_some after_write
    write_round-Rounds more count w mid =
        let remaining = timeout - elapsed os (time w₀) w in
        let (set, quiet) = ready.prepare_ready remaining w.state in
        let law = prepare_write_law stream e.stream remaining w.state in
        let prepared =
          (os.set_write_timeout e.stream remaining (os.limit_write e.stream remaining w.state)).1 in
        elim (Bool-cases (ltb count (length bytes))) [
          | inr full ↦ rw full (
            mid.out ∙ ap (◌++◌ (sent w₀)) (take-length count bytes (ground arith)),
            mid.clock,
            mid.kept,
            omega (arith, mid.clock),
          )
          | inl short ↦ elim (Bool-cases (remaining == 0)) [
            | inl over ↦ absurd (ground (arith, mid.clock))
            | inr left ↦
                let few = ltb→lt _ _ short in
                let (n, some_bytes, took, still) =
                  ready.write_ready (drop count bytes) prepared
                    (omega (arith, length-drop count bytes, few)) in
                let written = rw took at (stream.write_law e.stream (drop count bytes) prepared) in
                let fresh : (n == 0) ≡ false = ground arith in
                rw (short, left, set, took)
                  (rw fresh (
                    record {
                      room = omega (arith, length-drop count bytes, written.0, few);
                      out =
                          written.1
                          ∙ ap (λ r. r ++ take n (drop count bytes)) (sym law.0 ∙ mid.out)
                          ∙ append_assoc (sent w₀) (take count bytes) (take n (drop count bytes))
                          ∙ ap (◌++◌ (sent w₀)) (sym (take-add count n bytes));
                      clock = still ∙ quiet ∙ mid.clock;
                      kept = mid.kept;
                    },
                    omega (arith, length-drop count bytes, written.0, few, some_bytes),
                  ))
          ]
        ]

    -- Where the stream takes at once what it is given, the timeout is not 0, and the bytes are within the
    -- limit, the loop writes all of them.
    pub write_exact_timeout-Put :
        (fuel : ℕ)
        → length bytes ≤ e.config.max_message_size % 2 ^ 32
        → 0 < timeout
        → length bytes < fuel
        → Put
            (write_exact_timeout os fuel e bytes timeout w₀).0
            (write_exact_timeout os fuel e bytes timeout w₀).1
    unfolding write_exact_timeout
    write_exact_timeout-Put fuel fits more enough =
        let small : leb (2 ^ 32) (length bytes) ≡ false = ground arith in
        let within : ltb (e.config.max_message_size % 2 ^ 32) (length bytes) ≡ false =
          ground arith in
        rw (small, within)
          (repeat_ends Mid Put (write_round os e (time w₀) timeout bytes) (λ n _. length bytes - n)
            (write_round-Rounds more) fuel 0 w₀ (omega (arith, enough))
            (record {
              room = omega arith;
              out = sym (append-nil (sent w₀));
              clock = refl;
              kept = refl;
            }))
