-- ===== src/Connections/Checks.antt =====
-- The two checks of an address, against the numbers of connections that the table holds.
use peer_net.Base.{
  ℕ, ◌+◌, ◌<◌, ◌≡◌, ◌↔◌, String, Option, none, Bool, true, List, [], ◌∷◌, ◌&&◌, Eq, ◌==◌, count_if,
  option_eq, string_eq, arith,
}
use peer_net.Base.Dict.{values, lookup}
use peer_net.Address.{SocketAddr, IpAddr, ip_of, ip_eq, to_canonical}
use peer_net.Config.Category.{PeerNetCategoryInfo}
use peer_net.PeerConnection.{PeerConnection, PeerConnectionType, in_, out, connection_type_eq}
use peer_net.Connections.{
  ActiveConnections, connection_ip, tally, check_addr_accepted_pre_handshake,
  check_addr_accepted_post_handshake,
}

-- A connection of the given type from the given address, which is canonical.
abbrev pub is_at : PeerConnectionType → IpAddr → PeerConnection → Bool
is_at kind ip c = (c.connection_type == kind) && (connection_ip c == ip)

-- A connection of the given type in the given category.
abbrev pub is_in_category : PeerConnectionType → Option String → PeerConnection → Bool
is_in_category kind category c = (c.connection_type == kind) && (c.category_name == category)

tally_lem :
    (kind : PeerConnectionType) (ip : IpAddr) (category : Option String) (cs : List PeerConnection)
    (a b : ℕ)
    → tally kind ip category cs a b
      ≡ (a + count_if (is_at kind ip) cs, b + count_if (is_in_category kind category) cs)
unfolding tally
tally_lem kind ip category [] a b = ground arith
tally_lem kind ip category (c ∷ cs) a b = ground (
  arith,
  tally_lem kind ip category cs (a + 1) (b + 1),
  tally_lem kind ip category cs (a + 1) b,
  tally_lem kind ip category cs a (b + 1),
  tally_lem kind ip category cs a b,
)

module _ {PeerId : Type 0} (active : ActiveConnections PeerId) where
  abbrev pub nb_at : PeerConnectionType → IpAddr → ℕ
  nb_at kind ip = count_if (is_at kind ip) (values active.connections)

  abbrev pub nb_in_category : PeerConnectionType → Option String → ℕ
  nb_in_category kind category = count_if (is_in_category kind category) (values active.connections)

  -- The check before the handshake passes exactly when the incoming connections from the address,
  -- and those of the category, are fewer than the category's limits.
  pub check_addr_accepted_pre_handshake_iff :
      (addr : SocketAddr) (category : Option String) (info : PeerNetCategoryInfo)
      → (check_addr_accepted_pre_handshake active addr category info ≡ true) ↔ (
          (nb_at in_ (to_canonical (ip_of addr)) < info.max_in_connections_per_ip)
          × (nb_in_category in_ category < info.max_in_connections))
  unfolding check_addr_accepted_pre_handshake
  check_addr_accepted_pre_handshake_iff addr category info = rw tally_lem (ground arith)

abbrev pub max_of : PeerConnectionType → PeerNetCategoryInfo → ℕ
max_of in_ info = info.max_in_connections
max_of out info = info.max_out_connections

-- The check after the handshake passes exactly when the peer has no connection, and the connections
-- of the same type from the address, and those of the same type in the category, are fewer than the
-- limits: the one of the address is that of incoming connections for both types.
pub check_addr_accepted_post_handshake_iff :
    {PeerId : Type 0} ⦃e : Eq PeerId⦄ (active : ActiveConnections PeerId) (addr : SocketAddr)
    (category : Option String) (info : PeerNetCategoryInfo) (id : PeerId)
    (kind : PeerConnectionType)
    → (check_addr_accepted_post_handshake active addr category info id kind ≡ true) ↔ (
        (lookup id active.connections ≡ none)
        × (nb_at active kind (to_canonical (ip_of addr)) < info.max_in_connections_per_ip)
        × (nb_in_category active kind category < max_of kind info))
unfolding check_addr_accepted_post_handshake
check_addr_accepted_post_handshake_iff active addr category info id in_ =
    rw tally_lem (ground arith)
check_addr_accepted_post_handshake_iff active addr category info id out =
    rw tally_lem (ground arith)
