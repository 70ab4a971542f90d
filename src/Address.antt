-- ===== src/Address.antt =====
-- Socket addresses, and `to_canonical` of src/network_manager.rs. An IPv4 address is its 32 bits,
-- an IPv6 address its 128 bits, as numbers.
use native.Mathlib.Decide.{ℕ_discrete}
use peer_net.Base.{ℕ, ◌^◌, ◌/◌, ◌%◌, Option, none, some, Eq, ◌==◌, nat_eq, if◌then◌else◌}

pub data IpAddr : Type 0 where
  v4 : ℕ → IpAddr
  v6 : ℕ → IpAddr

-- A V6 socket address also has a flow label and a scope.
pub data SocketAddr : Type 0 where
  v4_addr : ℕ → ℕ → SocketAddr
  v6_addr : ℕ → ℕ → ℕ → ℕ → SocketAddr

IpAddr-discrete : Discrete IpAddr
IpAddr-discrete = hlevel ℕ_discrete

SocketAddr-discrete : Discrete SocketAddr
SocketAddr-discrete = hlevel ℕ_discrete

instance unfoldable pub ip_eq : Eq IpAddr
unfolding IpAddr-discrete ℕ_discrete
ip_eq = record { dec = IpAddr-discrete }

instance unfoldable pub addr_eq : Eq SocketAddr
unfolding SocketAddr-discrete ℕ_discrete
addr_eq = record { dec = SocketAddr-discrete }

-- `SocketAddr::ip`
unfoldable pub ip_of : SocketAddr → IpAddr
ip_of (v4_addr ip port) = v4 ip
ip_of (v6_addr ip port flow scope) = v6 ip

-- `Ipv6Addr::to_ipv4_mapped`: ::ffff:a.b.c.d, that is 80 zero bits, 16 one bits, and the address.
unfoldable pub to_ipv4_mapped : ℕ → Option ℕ
to_ipv4_mapped ip = if ip / 2 ^ 32 == 0xffff then some (ip % 2 ^ 32) else none

abbrev or_v6 : ℕ → Option ℕ → IpAddr
or_v6 ip (some mapped) = v4 mapped
or_v6 ip none = v6 ip

unfoldable pub to_canonical : IpAddr → IpAddr
unfolding to_ipv4_mapped
to_canonical (v4 ip) = v4 ip
to_canonical (v6 ip) = or_v6 ip (to_ipv4_mapped ip)
