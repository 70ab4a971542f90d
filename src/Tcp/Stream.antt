-- ===== src/Tcp/Stream.antt =====
-- What the program relies on of a stream: bytes arrive in order and each once, and a call that gets
-- nothing done takes time. `input` is what a stream has still to deliver, `output` what it has taken.
use peer_net.Base.{ℕ, ◌≤◌, ◌<◌, ◌≡◌, List, ◌++◌, length, take, ◌∙◌, arith}
use peer_net.Os.{Os, ReadResult, got, read_failed, WriteResult, wrote, write_failed}

module _ (os : Os) (view : ℕ → os.State → List ℕ) where
  -- A read delivers a prefix of the input, no longer than the buffer; one that fails, nothing.
  abbrev pub ReadLaw : ℕ → ℕ → os.State → ReadResult → os.State → Type 0
  ReadLaw h n s (got bs) t = (length bs ≤ n) × (view h s ≡ bs ++ view h t) × (os.now s ≤ os.now t)
  ReadLaw h n s (read_failed kind text) t = (view h s ≡ view h t) × (os.now s < os.now t)

  -- A write takes a prefix of the bytes; one that fails, nothing.
  abbrev pub WriteLaw : ℕ → List ℕ → os.State → WriteResult → os.State → Type 0
  WriteLaw h bs s (wrote n) t =
      (n ≤ length bs) × (view h t ≡ view h s ++ take n bs) × (os.now s ≤ os.now t)
  WriteLaw h bs s (write_failed kind text) t = (view h t ≡ view h s) × (os.now s ≤ os.now t)

  -- A call that moves no byte, and may take time.
  abbrev pub QuietLaw : ℕ → os.State → os.State → Type 0
  QuietLaw h s t = (view h s ≡ view h t) × (os.now s ≤ os.now t)

pub record IsStream (os : Os) : Type 0 where
  pub input : ℕ → os.State → List ℕ
  pub output : ℕ → os.State → List ℕ
  pub read_law :
      (h n : ℕ) (s : os.State) → ReadLaw os input h n s (os.read h n s).0 (os.read h n s).1
  pub write_law :
      (h : ℕ) (bs : List ℕ) (s : os.State)
      → WriteLaw os output h bs s (os.write h bs s).0 (os.write h bs s).1
  pub limit_read_law : (h t : ℕ) (s : os.State) → QuietLaw os input h s (os.limit_read h t s)
  pub limit_write_law : (h t : ℕ) (s : os.State) → QuietLaw os output h s (os.limit_write h t s)
  pub set_read_law : (h t : ℕ) (s : os.State) → QuietLaw os input h s (os.set_read_timeout h t s).1
  pub set_write_law :
      (h t : ℕ) (s : os.State) → QuietLaw os output h s (os.set_write_timeout h t s).1

module _ {os : Os} (stream : IsStream os) where
  pub prepare_read_law :
      (h t : ℕ) (s : os.State)
      → QuietLaw os stream.input h s (os.set_read_timeout h t (os.limit_read h t s)).1
  prepare_read_law h t s =
      let a = stream.limit_read_law h t s in
      let b = stream.set_read_law h t (os.limit_read h t s) in (a.0 ∙ b.0, omega (arith, a.1, b.1))

  pub prepare_write_law :
      (h t : ℕ) (s : os.State)
      → QuietLaw os stream.output h s (os.set_write_timeout h t (os.limit_write h t s)).1
  prepare_write_law h t s =
      let a = stream.limit_write_law h t s in
      let b = stream.set_write_law h t (os.limit_write h t s) in
      (a.0 ∙ b.0, omega (arith, a.1, b.1))
