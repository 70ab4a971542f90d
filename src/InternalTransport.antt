-- ===== src/InternalTransport.antt =====
-- `InternalTransportType` of src/transports/mod.rs, the choice between the transports.
pub mod Agree
use peer_net.Base.{ℕ, String, Option, none, some, List, ◌⊎◌, inl, inr}
use peer_net.Address.{SocketAddr}
use peer_net.Act.{Outcome, ok, panicked, Act}
use peer_net.Config.{TcpTransportConfig, QuicTransportConfig}
use peer_net.Os.{Os}
use peer_net.World.{World, call}
use peer_net.Endpoint.{Endpoint}
use peer_net.Tcp.Framing
use peer_net.Quic.Channel
use peer_net.Transport.{TransportType}
use peer_net.Connections.{Shared}
use peer_net.Tcp
use peer_net.Tcp.Transport.{TcpTransport, With}
use peer_net.Quic
use peer_net.Quic.Transport.{QuicTransport}

pub data TransportConfig : Type 0 where
  tcp : TcpTransportConfig → TransportConfig
  quic : QuicTransportConfig → TransportConfig

-- `from_transport_config`
unfoldable pub from_transport_config : TransportConfig → TransportType
from_transport_config (tcp _) = TransportType.tcp
from_transport_config (quic _) = TransportType.quic

pub data InternalTransport : Type 0 where
  tcp : TcpTransport → InternalTransport
  quic : QuicTransport → InternalTransport

-- `from_transport_type`, with the ends of the channel that the new transport makes; `none` is its
-- panic.
unfoldable pub from_transport_type :
    TransportType → TransportConfig → SocketAddr → ℕ → ℕ → ℕ × ℕ → Option InternalTransport
from_transport_type TransportType.tcp (tcp config) local_addr total_received total_sent ends =
    some (tcp (Tcp.Transport.new_transport config total_received total_sent ends))
from_transport_type TransportType.quic (quic config) local_addr total_received total_sent ends =
    some (quic (Quic.Transport.new_transport 0 local_addr total_received total_sent ends))
from_transport_type TransportType.tcp (quic _) _ _ _ _ = none
from_transport_type TransportType.quic (tcp _) _ _ _ _ = none

-- A call of one transport as a call of the choice.
module _ {os : Os} {PeerId : Type 0} {A : Type 0} where
  abbrev of_tcp :
      Outcome A × With TcpTransport os PeerId → Outcome A × With InternalTransport os PeerId
  of_tcp (o, x) = (o, record { transport = InternalTransport.tcp x.transport; shared = x.shared })

  abbrev of_quic :
      Outcome A × With QuicTransport os PeerId → Outcome A × With InternalTransport os PeerId
  of_quic (o, x) = (o, record { transport = InternalTransport.quic x.transport; shared = x.shared })

module _ {os : Os} {PeerId : Type 0} where
  unfoldable pub start_listener :
      SocketAddr
      → InternalTransport
      → Shared os PeerId
      → Outcome (Unit {0}) × With InternalTransport os PeerId
  start_listener address (InternalTransport.tcp t) s =
      of_tcp (Tcp.Transport.start_listener address (record { transport = t; shared = s }))
  start_listener address (InternalTransport.quic t) s =
      of_quic (Quic.Transport.start_listener address (record { transport = t; shared = s }))

  unfoldable pub stop_listener :
      SocketAddr
      → InternalTransport
      → Shared os PeerId
      → Outcome (Unit {0}) × With InternalTransport os PeerId
  stop_listener address (InternalTransport.tcp t) s =
      of_tcp (Tcp.Transport.stop_listener address (record { transport = t; shared = s }))
  stop_listener address (InternalTransport.quic t) s =
      of_quic (Quic.Transport.stop_listener address (record { transport = t; shared = s }))

  -- Gives the handle of the thread that connects.
  unfoldable pub try_connect :
      InternalTransport → Shared os PeerId → Outcome ℕ × With InternalTransport os PeerId
  try_connect (InternalTransport.tcp t) s =
      of_tcp (Tcp.Transport.try_connect (record { transport = t; shared = s }))
  try_connect (InternalTransport.quic t) s =
      of_quic (Quic.Transport.try_connect (record { transport = t; shared = s }))

-- The calls on endpoints. On a mock endpoint they unwrap where those of src/transports/endpoint.rs
-- give an error.
module _ {os : Os} (fuel : ℕ) where
  abbrev sent_or_panic : Option String × World os → Outcome (Unit {0}) × World os
  sent_or_panic (none, w) = (ok tt, w)
  sent_or_panic (some _, w) = (panicked, w)

  abbrev received_or_panic : (String ⊎ List ℕ) × World os → Outcome (List ℕ) × World os
  received_or_panic (inl _, w) = (panicked, w)
  received_or_panic (inr bytes, w) = (ok bytes, w)

  unfoldable pub send : Endpoint → List ℕ → Act (World os) (Unit {0})
  send (Endpoint.tcp e) bytes w = Tcp.Framing.send os fuel e bytes w
  send (Endpoint.quic e) bytes w = Quic.Channel.send e bytes w
  send (Endpoint.mock sender _ _) bytes w = sent_or_panic (call (os.send_bytes sender bytes) w)

  unfoldable pub send_timeout : Endpoint → List ℕ → ℕ → Act (World os) (Unit {0})
  send_timeout (Endpoint.tcp e) bytes timeout w = Tcp.Framing.send_timeout os fuel e bytes timeout w
  send_timeout (Endpoint.quic e) bytes timeout w = Quic.Channel.send_timeout e bytes timeout w
  send_timeout (Endpoint.mock sender _ _) bytes timeout w =
      sent_or_panic (call (os.send_bytes sender bytes) w)

  unfoldable pub receive : Endpoint → Act (World os) (List ℕ)
  receive (Endpoint.tcp e) w = Tcp.Framing.receive os fuel e w
  receive (Endpoint.quic e) w = Quic.Channel.receive e w
  receive (Endpoint.mock _ receiver _) w = received_or_panic (call (os.recv_bytes receiver) w)
