-- ===== src/InternalTransport/Agree.antt =====
-- The calls on endpoints of src/transports/mod.rs beside those of src/transports/endpoint.rs.
use peer_net.Base.{ℕ, ◌≡◌, refl, String, List, ◌⊎◌, inl, inr, Option-cases}
use peer_net.Error.{PeerNetErrorData}
use peer_net.Act.{Outcome, err, panicked}
use peer_net.Os.{Os}
use peer_net.World.{World}
use peer_net.Endpoint.{Endpoint}
use peer_net.Endpoint.Dispatch
use peer_net.InternalTransport.{send, send_timeout, receive}

module _ {os : Os} where
  -- The second call does what the first does, or panics where the first gives an error.
  abbrev pub Agrees : {A : Type 0} → Outcome A × World os → Outcome A × World os → Type 0
  Agrees r q = (q ≡ r) ⊎ ((x : PeerNetErrorData) × (r.0 ≡ err x) × (q ≡ (panicked, r.1)))

  module _ (fuel : ℕ) where
    send-Agrees :
        (e : Endpoint) (bytes : List ℕ) (w : World os)
        → Agrees (Dispatch.send fuel e bytes w) (send fuel e bytes w)
    unfolding send Dispatch.send
    send-Agrees (Endpoint.tcp e) bytes w = inl refl
    send-Agrees (Endpoint.quic e) bytes w = inl refl
    send-Agrees (Endpoint.mock sender _ _) bytes w =
        elim (Option-cases (os.send_bytes sender bytes w.state).0) [
          | inl fine ↦ rw fine (inl refl)
          | inr (text, failed) ↦ rw failed (inr (_, refl, refl))
        ]

    send_timeout-Agrees :
        (e : Endpoint) (bytes : List ℕ) (timeout : ℕ) (w : World os)
        → Agrees
            (Dispatch.send_timeout fuel e bytes timeout w)
            (send_timeout fuel e bytes timeout w)
    unfolding send_timeout Dispatch.send_timeout
    send_timeout-Agrees (Endpoint.tcp e) bytes timeout w = inl refl
    send_timeout-Agrees (Endpoint.quic e) bytes timeout w = inl refl
    send_timeout-Agrees (Endpoint.mock sender _ _) bytes timeout w =
        elim (Option-cases (os.send_bytes sender bytes w.state).0) [
          | inl fine ↦ rw fine (inl refl)
          | inr (text, failed) ↦ rw failed (inr (_, refl, refl))
        ]

    receive-Agrees :
        (e : Endpoint) (w : World os) → Agrees (Dispatch.receive fuel e w) (receive fuel e w)
    unfolding receive Dispatch.receive
    receive-Agrees (Endpoint.tcp e) w = inl refl
    receive-Agrees (Endpoint.quic e) w = inl refl
    receive-Agrees (Endpoint.mock sender receiver address) w =
        go (os.recv_bytes receiver w.state).0 refl
      where
        go :
            (r : String ⊎ List ℕ)
            → (os.recv_bytes receiver w.state).0 ≡ r
            → Agrees
                (Dispatch.receive fuel (Endpoint.mock sender receiver address) w)
                (receive fuel (Endpoint.mock sender receiver address) w)
        go (inl text) failed = rw failed (inr (_, refl, refl))
        go (inr bytes) fine = rw fine (inl refl)

    -- On every endpoint the calls of the transports do what those of the endpoint do, save that on a
    -- mock endpoint they panic where those of the endpoint give an error.
    pub calls-Agree :
        (e : Endpoint) (bytes : List ℕ) (timeout : ℕ) (w : World os)
        → Agrees (Dispatch.send fuel e bytes w) (send fuel e bytes w)
          × Agrees
              (Dispatch.send_timeout fuel e bytes timeout w)
              (send_timeout fuel e bytes timeout w)
          × Agrees (Dispatch.receive fuel e w) (receive fuel e w)
    calls-Agree e bytes timeout w =
        (send-Agrees e bytes w, send_timeout-Agrees e bytes timeout w, receive-Agrees e w)
