-- ===== src/Manager/Addresses.antt =====
-- The local address of a QUIC transport.
use peer_net.Base.{◌≡◌, refl, ap, none, some}
use peer_net.Base.Dict.{lookup, lookup-insert_self}
use peer_net.Address.{SocketAddr}
use peer_net.Os.{Os}
use peer_net.Transport.{TransportType, transport_type_eq}
use peer_net.Quic
use peer_net.Quic.Transport.{QuicTransport}
use peer_net.Quic.Transport.Configs.{try_connect-Leaves}
use peer_net.InternalTransport
use peer_net.InternalTransport.{InternalTransport, from_transport_type}
use peer_net.Manager.{Manager, transport_config, made, found, entry, on_entry, try_connect}

-- Where a manager has no QUIC transport yet, connecting to a peer over QUIC makes one whose local
-- address is the address of the peer, however the call ends.
pub try_connect_quic_local_addr :
    {os : Os} {PeerId Ctx : Type 0} (m : Manager os PeerId Ctx) (address : SocketAddr)
    → lookup TransportType.quic m.transports ≡ none
    → (t : QuicTransport) × (lookup TransportType.quic
          (try_connect TransportType.quic address m).1.transports
        ≡ some (InternalTransport.quic t))
      × (t.config.connection_config.local_addr ≡ address)
unfolding try_connect entry found made on_entry from_transport_type transport_config
    InternalTransport.try_connect Quic.Transport.new_transport
try_connect_quic_local_addr {os} {PeerId} m address missing = rw missing (
  _,
  lookup-insert_self TransportType.quic _ _,
  ap (λ c. c.connection_config.local_addr) (try_connect-Leaves os PeerId _ _ refl),
)
