-- ===== src/Transport.antt =====
-- `TransportType` of src/transports/mod.rs
use peer_net.Base.{Eq}

pub data TransportType : Type 0 where
  tcp quic : TransportType

TransportType-discrete : Discrete TransportType
TransportType-discrete = hlevel

instance unfoldable pub transport_type_eq : Eq TransportType
unfolding TransportType-discrete
transport_type_eq = record { dec = TransportType-discrete }
