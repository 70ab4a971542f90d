-- ===== src/Tcp/Exact/Reads.antt =====
-- What `read_exact_timeout` delivers.
use mathlib.Core.List.{append_assoc}
use peer_net.Base.{
  ℕ, ◌+◌, ◌-◌, ◌≤◌, ◌<◌, ◌≡◌, refl, ◌∙◌, ap, Option, some, none, List, [], ◌∷◌, ◌++◌, arith, length,
  length-append, Bool-cases, inl, inr, ltb, ltb→lt, pos_of_test, String, ◌==◌, nat_eq,
}
use peer_net.Error.{time_out}
use peer_net.Act.{Outcome, ok, err, panicked, unfinished}
use peer_net.Os.{Os, ReadResult, got, read_failed, would_block, timed_out, interrupted, other}
use peer_net.World.{World, time}
use peer_net.Loop.{Step, again, Keeps, repeat_ends}
use peer_net.Endpoint.{TcpEndpoint}
use peer_net.Tcp.Exact.{read_round, read_exact_timeout, read_some, after_read, shutdown, elapsed}
use peer_net.Tcp.Stream.{IsStream, ReadLaw, prepare_read_law}

-- The bytes that the endpoint has still to receive.
abbrev pub arrives_at : (os : Os) → IsStream os → TcpEndpoint → World os → List ℕ
arrives_at os stream e w = stream.input e.stream w.state

-- How a read of `len` bytes from `w₀` may end.
abbrev pub Read :
    (os : Os) → IsStream os → TcpEndpoint → ℕ → World os → Outcome (List ℕ × ℕ) → World os → Type 0
Read os stream e len w₀ (ok (buf, t)) w =
    (length buf ≡ len)
    × (arrives_at os stream e w₀ ≡ buf ++ arrives_at os stream e w)
    × (w.counters ≡ w₀.counters)
Read os stream e len w₀ (err x) w =
    (w.counters ≡ w₀.counters)
    × (x.error_type ≡ time_out
        → (lost : List ℕ) × (length lost < len)
          × (arrives_at os stream e w₀ ≡ lost ++ arrives_at os stream e w))
Read os stream e len w₀ panicked w = ⊥
Read os stream e len w₀ unfinished w = ⊥

module _ (os : Os) (stream : IsStream os) (e : TcpEndpoint) (start timeout len : ℕ)
    (w₀ : World os) where
  abbrev arrives : World os → List ℕ
  arrives = arrives_at os stream e

  -- Midway, `buf` is what has come off the stream.
  record Mid (buf : List ℕ) (w : World os) : Type 0 where
    room : length buf ≤ len
    came : arrives w₀ ≡ buf ++ arrives w
    later : start ≤ time w
    kept : w.counters ≡ w₀.counters

  abbrev left : List ℕ → World os → ℕ
  left buf w = (len - length buf) + (timeout - elapsed os start w)

  abbrev Rounds : ℕ → Step (List ℕ × ℕ) (List ℕ) → World os → Type 0
  Rounds m = Keeps (λ b w. Mid b w × (left b w < m)) (Read os stream e len w₀)

  -- At the head of the round the time was `τ`, some of the timeout was left, and `m` bounds the measure.
  record Head (τ m : ℕ) (buf : List ℕ) (w : World os) : Type 0 where
    short : length buf < len
    left_over : 0 < timeout - (τ - start)
    bound : (len - length buf) + (timeout - (τ - start)) ≤ m
    begun : start ≤ τ
    past : τ ≤ time w

  retried :
      (τ m : ℕ) (buf : List ℕ) (w t : World os)
      → Mid buf w
      → Head τ m buf w
      → (arrives w ≡ arrives t) × (time w < time t)
      → t.counters ≡ w.counters
      → Rounds m (again buf) t
  retried τ m buf w t mid head law same = (
    record {
      room = mid.room;
      came = mid.came ∙ ap (◌++◌ buf) law.0;
      later = omega (arith, mid.later, law.1);
      kept = same ∙ mid.kept;
    },
    omega (arith, law.1, head),
  )

  after_read-Rounds :
      (τ m : ℕ) (buf : List ℕ) (w : World os) (r : ReadResult) (t : World os)
      → Mid buf w
      → Head τ m buf w
      → ReadLaw os stream.input e.stream (len - length buf) w.state r t.state
      → t.counters ≡ w.counters
      → Rounds m (after_read os e buf r t).0 (after_read os e buf r t).1
  unfolding after_read shutdown
  after_read-Rounds τ m buf w (got []) t mid head law same = (ground arith, λ h. cc h)
  after_read-Rounds τ m buf w (got (b ∷ bs)) t mid head law same =
      let grown = length-append buf (b ∷ bs) in
      (
        record {
          room = omega (arith, grown, law.0, head);
          came = rw append_assoc (mid.came ∙ ap (◌++◌ buf) law.1);
          later = omega (arith, mid.later, law.2);
          kept = same ∙ mid.kept;
        },
        omega (arith, grown, law.0, law.2, head),
      )
  after_read-Rounds τ m buf w (read_failed would_block text) t mid head law same =
      retried τ m buf w t mid head law same
  after_read-Rounds τ m buf w (read_failed timed_out text) t mid head law same =
      retried τ m buf w t mid head law same
  after_read-Rounds τ m buf w (read_failed interrupted text) t mid head law same =
      retried τ m buf w t mid head law same
  after_read-Rounds τ m buf w (read_failed other text) t mid head law same =
      (same ∙ mid.kept, λ h. cc h)

  read_some-Rounds :
      (τ m : ℕ) (buf : List ℕ) (set : Option String) (w : World os)
      → Mid buf w
      → Head τ m buf w
      → Rounds m (read_some os e len buf set w).0 (read_some os e len buf set w).1
  unfolding read_some
  read_some-Rounds τ m buf (some text) w mid head = (mid.kept, λ h. cc h)
  read_some-Rounds τ m buf none w mid head =
      after_read-Rounds τ m buf w _ _ mid head (stream.read_law e.stream (len - length buf) w.state)
        refl

  read_round-Rounds :
      (buf : List ℕ) (w : World os)
      → Mid buf w
      → Rounds
          (left buf w)
          (read_round os e start timeout len buf w).0
          (read_round os e start timeout len buf w).1
  unfolding read_round
  read_round-Rounds buf w mid =
      let law = prepare_read_law stream e.stream (timeout - elapsed os start w) w.state in
      elim (Bool-cases (ltb (length buf) len)) [
        | inl short ↦ elim (Bool-cases ((timeout - elapsed os start w) == 0)) [
          | inl over ↦ rw (short, over) (mid.kept, λ _. (buf, ltb→lt _ _ short, mid.came))
          | inr more ↦
              rw (short, more)
                (read_some-Rounds (time w) (left buf w) buf _ _
                  (record {
                    room = mid.room;
                    came = mid.came ∙ ap (◌++◌ buf) law.0;
                    later = omega (arith, mid.later, law.1);
                    kept = mid.kept;
                  })
                  (record {
                    short = ltb→lt _ _ short;
                    left_over = pos_of_test _ more;
                    bound = omega arith;
                    begun = mid.later;
                    past = law.1;
                  }))
        ]
        | inr full ↦ rw full (ground arith, mid.came, mid.kept)
      ]

-- With fuel for each byte and each tick of the timeout the loop ends. It has then read the whole
-- buffer, which is what the stream delivered first, or failed; it touches no counter. If it ran out
-- of time, the bytes that it had read are gone from the stream.
pub read_exact_timeout-Read :
    (os : Os) (stream : IsStream os) (fuel : ℕ) (e : TcpEndpoint) (len timeout : ℕ) (w : World os)
    → len + timeout < fuel
    → Read os stream e len w
        (read_exact_timeout os fuel e len timeout w).0
        (read_exact_timeout os fuel e len timeout w).1
unfolding read_exact_timeout
read_exact_timeout-Read os stream fuel e len timeout w enough =
    repeat_ends (Mid os stream e (time w) timeout len w) (Read os stream e len w)
      (read_round os e (time w) timeout len) (left os stream e (time w) timeout len w)
      (read_round-Rounds os stream e (time w) timeout len w) fuel [] w (omega arith)
      (record { room = omega arith; came = refl; later = omega arith; kept = refl })
