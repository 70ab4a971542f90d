-- ===== src/Tcp/Exact/Prompt.antt =====
-- `read_exact_timeout` on a stream that has the bytes ready.
use mathlib.Core.List.{append_assoc}
use peer_net.Base.{
  ℕ, ◌-◌, ◌≤◌, ◌<◌, ◌≡◌, refl, ◌∙◌, ap, none, List, [], ◌∷◌, ◌++◌, arith, length, length-append,
  Bool-cases, inl, inr, ltb, ltb→lt, ◌==◌, nat_eq,
}
use peer_net.Act.{Outcome, ok, err, panicked, unfinished}
use peer_net.Os.{Os, got}
use peer_net.World.{World, time}
use peer_net.Loop.{Step, Keeps, repeat_ends}
use peer_net.Endpoint.{TcpEndpoint}
use peer_net.Tcp.Exact.{read_round, read_exact_timeout, read_some, after_read, elapsed}
use peer_net.Tcp.Exact.Reads.{arrives_at}
use peer_net.Tcp.Stream.{IsStream, prepare_read_law}

-- The stream behind a handle gives at once some of what it has to deliver, and its timeouts can be set.
pub record IsPrompt (os : Os) (stream : IsStream os) (h : ℕ) : Type 0 where
  pub read_ready :
      (n : ℕ) (s : os.State)
      → 0 < n
      → 0 < length (stream.input h s)
      → (b : ℕ) × (bs : List ℕ) × ((os.read h n s).0 ≡ got (b ∷ bs))
        × (os.now (os.read h n s).1 ≡ os.now s)
  pub prepare_ready :
      (t : ℕ) (s : os.State)
      → ((os.set_read_timeout h t (os.limit_read h t s)).0 ≡ none)
        × (os.now (os.set_read_timeout h t (os.limit_read h t s)).1 ≡ os.now s)

module _ (os : Os) (stream : IsStream os) (e : TcpEndpoint) (len : ℕ) (w₀ : World os) where
  abbrev arrives : World os → List ℕ
  arrives = arrives_at os stream e

  -- All `len` bytes were read, in no time.
  abbrev pub Ready : Outcome (List ℕ × ℕ) → World os → Type 0
  Ready (ok (buf, t)) w =
      (length buf ≡ len)
      × (arrives w₀ ≡ buf ++ arrives w)
      × (time w ≡ time w₀)
      × (w.counters ≡ w₀.counters)
      × (t ≡ 0)
  Ready (err _) w = ⊥
  Ready panicked w = ⊥
  Ready unfinished w = ⊥

  record Mid (buf : List ℕ) (w : World os) : Type 0 where
    room : length buf ≤ len
    came : arrives w₀ ≡ buf ++ arrives w
    clock : time w ≡ time w₀
    kept : w.counters ≡ w₀.counters

  abbrev Rounds : ℕ → Step (List ℕ × ℕ) (List ℕ) → World os → Type 0
  Rounds m = Keeps (λ buf w. Mid buf w × (len - length buf < m)) Ready

  module _ (prompt : IsPrompt os stream e.stream) (timeout : ℕ) where
    read_round-Rounds :
        len ≤ length (arrives w₀)
        → 0 < timeout
        → (buf : List ℕ) (w : World os) → Mid buf w
        → Rounds
            (len - length buf)
            (read_round os e (time w₀) timeout len buf w).0
            (read_round os e (time w₀) timeout len buf w).1
    unfolding read_round read_some after_read
    read_round-Rounds there more buf w mid =
        let remaining = timeout - elapsed os (time w₀) w in
        let (set, quiet) = prompt.prepare_ready remaining w.state in
        let law = prepare_read_law stream e.stream remaining w.state in
        let ready =
          (os.set_read_timeout e.stream remaining (os.limit_read e.stream remaining w.state)).1 in
        let whole = length-append buf (arrives w) in
        elim (Bool-cases (ltb (length buf) len)) [
          | inr full ↦
              rw full
                (ground (arith, mid.room), mid.came, mid.clock, mid.kept, omega (arith, mid.clock))
          | inl short ↦ elim (Bool-cases (remaining == 0)) [
            | inl over ↦ absurd (ground (arith, mid.clock))
            | inr left ↦
                let few = ltb→lt _ _ short in
                let (b, bs, some_came, still) =
                  prompt.read_ready (len - length buf) ready (omega arith)
                    (omega (arith, there, few, whole, ap length mid.came, ap length law.0)) in
                let read = rw some_came at (stream.read_law e.stream (len - length buf) ready) in
                rw (short, left, set, some_came)
                  (
                    record {
                      room = omega (arith, length-append buf (b ∷ bs), read.0, few);
                      came = rw append_assoc (mid.came ∙ ap (◌++◌ buf) (law.0 ∙ read.1));
                      clock = still ∙ quiet ∙ mid.clock;
                      kept = mid.kept;
                    },
                    omega (arith, length-append buf (b ∷ bs), read.0, few),
                  )
          ]
        ]

    -- Where the bytes are ready and the timeout is not 0, the loop reads all of them.
    pub read_exact_timeout-Ready :
        (fuel : ℕ)
        → len ≤ length (arrives w₀)
        → 0 < timeout
        → len < fuel
        → Ready
            (read_exact_timeout os fuel e len timeout w₀).0
            (read_exact_timeout os fuel e len timeout w₀).1
    unfolding read_exact_timeout
    read_exact_timeout-Ready fuel there more enough =
        repeat_ends Mid Ready (read_round os e (time w₀) timeout len) (λ buf _. len - length buf)
          (read_round-Rounds there more) fuel [] w₀ (omega arith)
          (record { room = omega arith; came = refl; clock = refl; kept = refl })
