-- ===== src/Peer/Loops/Prompt.antt =====
-- The reader of a peer on a stream that has frames ready.
use mathlib.Core.List.{append_assoc}
use peer_net.Base.{
  ℕ, suc, ◌+◌, ◌%◌, ◌^◌, ◌≤◌, ◌<◌, ◌≡◌, refl, ◌∙◌, ap, List, [], ◌∷◌, ◌++◌, Eq, arith, length,
}
use peer_net.Act.{Outcome, ok, err, panicked, unfinished}
use peer_net.Loop.{repeat}
use peer_net.Os.{Os}
use peer_net.World.{World}
use peer_net.Endpoint.{TcpEndpoint, tcp}
use peer_net.Endpoint.Dispatch
use peer_net.Connections.{Shared}
use peer_net.Peer.{Handler, Running}
use peer_net.Peer.Loops.{reader, reader_round, after_receive, after_handle}
use peer_net.Tcp.Exact.Reads.{arrives_at}
use peer_net.Tcp.Exact.Prompt.{IsPrompt}
use peer_net.Tcp.Framing.{receive}
use peer_net.Tcp.Framing.Sends.{frame}
use peer_net.Tcp.Framing.Prompt.{Arrived, receive-Arrived}
use peer_net.Tcp.Stream.{IsStream}

-- The frames of messages, one after the other.
abbrev pub frames : List (List ℕ) → List ℕ
frames [] = []
frames (m ∷ ms) = frame m ++ frames ms

-- No message is empty or longer than the limit.
abbrev pub Fits : ℕ → List (List ℕ) → Type 0
Fits limit [] = Unit
Fits limit (m ∷ ms) = (0 < length m) × (length m ≤ limit) × Fits limit ms

module _ {os : Os} {PeerId : Type 0} (handler : Handler os PeerId) (id : PeerId) (fuel : ℕ)
    (e : TcpEndpoint) where
  -- The handler has got a message that was received.
  abbrev pub handed : List ℕ → Shared os PeerId → Shared os PeerId
  handed m s = record s { world = (handler.handle m id (receive os fuel e s.world).1).1 }

  -- From the first state to the second, the handler gets just these messages, each after it was
  -- received.
  pub data Handled : List (List ℕ) → Shared os PeerId → Shared os PeerId → Type 0 where
    nothing : (s : Shared os PeerId) → Handled [] s s
    message :
        (m : List ℕ) (ms : List (List ℕ)) (s t : Shared os PeerId)
        → (receive os fuel e s.world).0 ≡ ok m
        → Handled ms (handed m s) t
        → Handled (m ∷ ms) s t

  -- The handler takes every message, and leaves what arrives at the endpoint alone.
  pub record IsTaking (stream : IsStream os) : Type 0 where
    pub takes : (m : List ℕ) (w : World os) → (handler.handle m id w).0 ≡ ok tt
    pub leaves :
        (m : List ℕ) (w : World os)
        → arrives_at os stream e (handler.handle m id w).1 ≡ arrives_at os stream e w

  module _ ⦃eq : Eq PeerId⦄ (stream : IsStream os) (prompt : IsPrompt os stream e.stream)
      (taking : IsTaking stream) (peer : Running PeerId) (is_tcp : peer.endpoint ≡ tcp e)
      (is_peer : peer.peer_id ≡ id) where
    Arrived-ok :
        (w : World os) (sent rest : List ℕ) (o : Outcome (List ℕ)) (v : World os)
        → Arrived os stream e w sent rest o v
        → (o ≡ ok sent) × (arrives_at os stream e v ≡ rest)
    Arrived-ok w sent rest (ok bytes) v (same, behind, _, _) = (ap (λ b. ok b) same, behind)
    Arrived-ok w sent rest (err _) v h = elim h [ ]
    Arrived-ok w sent rest panicked v h = elim h [ ]
    Arrived-ok w sent rest unfinished v h = elim h [ ]

    -- A round that receives a message.
    round_hands :
        (m : List ℕ) (s : Shared os PeerId) (more : ℕ)
        → 0 < length m
        → (receive os fuel e s.world).0 ≡ ok m
        → reader (suc more) fuel handler peer s ≡ reader more fuel handler peer (handed m s)
    unfolding reader repeat reader_round after_receive after_handle Dispatch.receive
    round_hands [] s more some_bytes came = absurd (omega arith)
    round_hands (b ∷ bs) s more some_bytes came =
        rw (is_tcp, is_peer)
          (rw came (rw (taking.takes (b ∷ bs) (receive os fuel e s.world).1) refl))

    -- Where the prompt stream of a peer over TCP has the frames of messages ready, none of them
    -- empty or over the limit, the timeout is not 0, there is fuel for a message of the limit, and
    -- the handler takes every message and leaves the stream alone: the reader receives each of them
    -- and hands them to the handler in their order, one in each round. The table does not change,
    -- and the reader goes on behind them.
    pub reader_hands_on :
        0 < e.config.read_timeout
        → e.config.max_message_size % 2 ^ 32 + 4 < fuel
        → (ms : List (List ℕ)) (rest : List ℕ) (s : Shared os PeerId)
        → Fits (e.config.max_message_size % 2 ^ 32) ms
        → arrives_at os stream e s.world ≡ frames ms ++ rest
        → (t : Shared os PeerId) × Handled ms s t
          × (arrives_at os stream e t.world ≡ rest)
          × (t.active ≡ s.active)
          × ((more : ℕ)
              → reader (length ms + more) fuel handler peer s ≡ reader more fuel handler peer t)
    reader_hands_on more enough [] rest s fits starts =
        (s, nothing s, starts, refl, λ k. ap (λ n. reader n fuel handler peer s) (omega arith))
    reader_hands_on more enough (m ∷ ms) rest s (some_bytes, short, fits) starts =
        let (came, behind) = Arrived-ok s.world m (frames ms ++ rest) _ _ (
          receive-Arrived os stream e s.world m (frames ms ++ rest) prompt fuel more short
            (omega arith) (omega arith) (starts ∙ append_assoc (frame m) (frames ms) rest)) in
        let (t, handled, at_end, same, on) =
          reader_hands_on more enough ms rest (handed m s) fits (taking.leaves m _ ∙ behind) in
        (
          t,
          message m ms s t came handled,
          at_end,
          same,
          λ k.
              let rounds : length (m ∷ ms) + k ≡ suc (length ms + k) = omega arith in
              ap (λ n. reader n fuel handler peer s) rounds
              ∙ round_hands m s (length ms + k) some_bytes came
              ∙ on k,
        )
