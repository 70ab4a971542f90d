-- ===== src/World.antt =====
-- The state that the threads of one process share below the table of connections: the operating
-- system, and the byte counters behind `Arc<RwLock<u64>>`, which clones of an endpoint share.
use peer_net.Base.{ℕ, ◌+◌, ◌%◌, ◌^◌, ◌==◌, nat_eq, if◌then◌else◌}
use peer_net.Os.{Os}

pub record World (os : Os) : Type 0 where
  pub state : os.State
  -- A counter is found by its reference.
  pub counters : ℕ → ℕ
  -- The reference of the next counter that is made.
  pub next_counter : ℕ

module _ {os : Os} where
  abbrev pub time : World os → ℕ
  time w = os.now w.state

  -- A call of the operating system.
  abbrev pub call : {A : Type 0} → (os.State → A × os.State) → World os → A × World os
  call f w = ((f w.state).0, record w { state = (f w.state).1 })

  abbrev pub change : (os.State → os.State) → World os → World os
  change f w = record w { state = f w.state }

  -- `*counter.write() += n`, which wraps in a release build.
  unfoldable pub add_to : ℕ → ℕ → World os → World os
  add_to r n w = record w {
    counters = λ q. if q == r then (w.counters q + n) % 2 ^ 64 else w.counters q;
  }

  -- `Arc::new(RwLock::new(0))`
  unfoldable pub new_counter : World os → ℕ × World os
  new_counter w = (
    w.next_counter,
    record w {
      counters = λ q. if q == w.next_counter then 0 else w.counters q;
      next_counter = w.next_counter + 1;
    },
  )

-- Counters after `n` more bytes at one reference.
abbrev pub grown : ℕ → ℕ → (ℕ → ℕ) → ℕ → ℕ
grown r n counters q = if q == r then (counters q + n) % 2 ^ 64 else counters q
