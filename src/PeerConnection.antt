-- ===== src/PeerConnection.antt =====
-- `SendChannels`, `PeerConnectionType` and `PeerConnection` of src/peer.rs. A message is serialized by
-- the program that uses the library, so its serializer is a parameter.
use peer_net.Base.{
  ℕ, String, Option, none, some, List, Eq, Bool, string_eq, option_eq, if◌then◌else◌,
}
use peer_net.Error.{new, send_error}
use peer_net.Act.{Outcome, ok, err, Act, ◌>>=◌}
use peer_net.Os.{Os}
use peer_net.World.{World, call}
use peer_net.Endpoint.{Endpoint}

-- The sending ends of the two channels to the writing thread.
pub record SendChannels : Type 0 where
  pub low_priority : ℕ
  pub high_priority : ℕ

pub data PeerConnectionType : Type 0 where
  in_ out : PeerConnectionType

PeerConnectionType-discrete : Discrete PeerConnectionType
PeerConnectionType-discrete = hlevel

instance unfoldable pub connection_type_eq : Eq PeerConnectionType
unfolding PeerConnectionType-discrete
connection_type_eq = record { dec = PeerConnectionType-discrete }

pub record PeerConnection : Type 0 where
  pub send_channels : SendChannels
  pub endpoint : Endpoint
  pub connection_type : PeerConnectionType
  pub category_name : Option String

module _ {os : Os} {T : Type 0} (serialize : T → Outcome (List ℕ)) where
  abbrev lifted : Outcome (List ℕ) → Act (World os) (List ℕ)
  lifted o w = (o, w)

  abbrev sent : String → Option String → World os → Outcome (Unit {0}) × World os
  sent location none w = (ok tt, w)
  sent location (some text) w = (err (new send_error location text none), w)

  -- `SendChannels::send`
  unfoldable pub send : SendChannels → T → Bool → Act (World os) (Unit {0})
  send c message high_priority = do
    bytes ← lifted (serialize message)
    λ w.
        if high_priority
        then (let r = call (os.send_bytes c.high_priority bytes) w in
            sent "send sendchannels highprio" r.0 r.1)
        else let r = call (os.send_bytes c.low_priority bytes) w in
          sent "send sendchannels lowprio" r.0 r.1

  -- `SendChannels::try_send`
  unfoldable pub try_send : SendChannels → T → Bool → Act (World os) (Unit {0})
  try_send c message high_priority = do
    bytes ← lifted (serialize message)
    λ w.
        if high_priority
        then (let r = call (os.try_send_bytes c.high_priority bytes) w in
            sent "try_send sendchannels highprio" r.0 r.1)
        else let r = call (os.try_send_bytes c.low_priority bytes) w in
          sent "try_send sendchannels lowprio" r.0 r.1
