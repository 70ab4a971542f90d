-- ===== src/Peer/Loops/Talk.antt =====
-- The writer of one peer and the reader of another, with a stream between them.
use peer_net.Base.{
  ℕ, ◌+◌, ◌%◌, ◌^◌, ◌≤◌, ◌<◌, ◌≡◌, refl, sym, ◌∙◌, ap, List, [], ◌∷◌, ◌++◌, Eq, arith, length,
  append-split,
}
use peer_net.Os.{Os}
use peer_net.Endpoint.{TcpEndpoint, tcp}
use peer_net.Connections.{Shared}
use peer_net.Peer.{Handler, Running}
use peer_net.Peer.Loops.{reader}
use peer_net.Peer.Loops.Order.{IsAside, Sends, nothing, message, Sends-frames, send-short}
use peer_net.Peer.Loops.Prompt.{frames, Fits, Handled, IsTaking, reader_hands_on}
use peer_net.Tcp.Exact.Reads.{arrives_at}
use peer_net.Tcp.Exact.Writes.{sent_at}
use peer_net.Tcp.Exact.Prompt.{IsPrompt}
use peer_net.Tcp.Stream.{IsStream}

abbrev pub NoneEmpty : List (List ℕ) → Type 0
NoneEmpty [] = Unit
NoneEmpty (m ∷ ms) = (0 < length m) × NoneEmpty ms

abbrev limit : TcpEndpoint → ℕ
limit e = e.config.max_message_size % 2 ^ 32

-- The peer that sends.
module _ {os₁ : Os} {Id₁ : Type 0} (fuel₁ peer_stop : ℕ) (peer₁ : Running Id₁) (e₁ : TcpEndpoint)
    (stream₁ : IsStream os₁) (aside : IsAside os₁ stream₁ e₁.stream)
    (enough₁ : limit e₁ + 4 < fuel₁) where
  Sends-Fits :
      (n : ℕ)
      → limit e₁ ≤ n
      → (ms : List (List ℕ)) (s u : Shared os₁ Id₁) → Sends fuel₁ peer_stop peer₁ e₁ ms s u
      → NoneEmpty ms
      → Fits n ms
  Sends-Fits n wider _ s _ (nothing _) full = tt
  Sends-Fits n wider _ s u (message m ms _ _ w taken fine rest) (some_bytes, full) = (
    some_bytes,
    omega (arith, wider, send-short fuel₁ peer_stop peer₁ e₁ m w fine),
    Sends-Fits n wider ms _ u rest full,
  )

  -- The peer that receives.
  module _ {os₂ : Os} {Id₂ : Type 0} ⦃eq : Eq Id₂⦄ (handler : Handler os₂ Id₂) (fuel₂ : ℕ)
      (peer₂ : Running Id₂) (e₂ : TcpEndpoint) (stream₂ : IsStream os₂)
      (prompt : IsPrompt os₂ stream₂ e₂.stream)
      (taking : IsTaking handler peer₂.peer_id fuel₂ e₂ stream₂) (is_tcp : peer₂.endpoint ≡ tcp e₂)
      (enough₂ : limit e₂ + 4 < fuel₂) (more : 0 < e₂.config.read_timeout) where
    -- What one peer sends the handler of another gets. Let the writer of the first have sent
    -- messages over TCP, none of them empty, with channels that put nothing on the stream, a limit
    -- that is not over that of the second, and fuel on both sides for a message of the limit. Let
    -- what it put on its stream be ready on the prompt stream of the second, whose timeout is not 0
    -- and whose handler takes every message and leaves the stream alone. Then the reader of the
    -- second hands exactly these messages to its handler, in the order in which they were sent, one
    -- in each round.
    pub reader_gets_what_writer_sent :
        limit e₁ ≤ limit e₂
        → (ms : List (List ℕ)) (s u : Shared os₁ Id₁) (new rest : List ℕ) (r : Shared os₂ Id₂)
        → Sends fuel₁ peer_stop peer₁ e₁ ms s u
        → NoneEmpty ms
        → sent_at os₁ stream₁ e₁ u.world ≡ sent_at os₁ stream₁ e₁ s.world ++ new
        → arrives_at os₂ stream₂ e₂ r.world ≡ new ++ rest
        → (t : Shared os₂ Id₂) × Handled handler peer₂.peer_id fuel₂ e₂ ms r t
          × (arrives_at os₂ stream₂ e₂ t.world ≡ rest)
          × (t.active ≡ r.active)
          × ((k : ℕ)
              → reader (length ms + k) fuel₂ handler peer₂ r ≡ reader k fuel₂ handler peer₂ t)
    reader_gets_what_writer_sent wider ms s u new rest r sends full out link =
        let (put, _) = Sends-frames fuel₁ peer_stop peer₁ e₁ stream₁ aside enough₁ ms s u sends in
        let (_, same) = append-split _ _ new (frames ms) refl (sym out ∙ put) in
        reader_hands_on handler peer₂.peer_id fuel₂ e₂ stream₂ prompt taking peer₂ is_tcp refl more
          enough₂ ms rest r (Sends-Fits (limit e₂) wider ms s u sends full)
          (link ∙ ap (λ l. l ++ rest) same)
