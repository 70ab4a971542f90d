-- ===== src/Config/Category.antt =====
-- The categories of peers of src/config.rs, and the search for the category of an address, which the
-- listener and `try_connect` of src/transports/tcp.rs make alike.
pub mod Order
use peer_net.Base.{ℕ, String, Option, none, some, List, [], ◌∷◌, contains, if◌then◌else◌}
use peer_net.Base.Dict.{Dict}
use peer_net.Address.{IpAddr, SocketAddr, ip_of, ip_eq, to_canonical}

pub record PeerNetCategoryInfo : Type 0 where
  pub max_in_connections : ℕ
  pub max_in_connections_per_ip : ℕ
  pub max_out_connections : ℕ

-- The entries stand in the order in which the hash map happens to iterate.
abbrev pub PeerNetCategories : Type 0
PeerNetCategories = Dict String (List IpAddr × PeerNetCategoryInfo)

-- `peer_categories.iter().find(|(_, info)| info.0.contains(&ip))`
unfoldable pub find_category : IpAddr → PeerNetCategories → Option (String × PeerNetCategoryInfo)
find_category ip [] = none
find_category ip ((name, (ips, info)) ∷ rest) =
    if contains ips ip then some (name, info) else find_category ip rest

abbrev or_default :
    PeerNetCategoryInfo
    → Option (String × PeerNetCategoryInfo)
    → Option String × PeerNetCategoryInfo
or_default default_info (some (name, info)) = (some name, info)
or_default default_info none = (none, default_info)

unfoldable pub category_of :
    PeerNetCategories → PeerNetCategoryInfo → SocketAddr → Option String × PeerNetCategoryInfo
unfolding find_category
category_of categories default_info address =
    or_default default_info (find_category (to_canonical (ip_of address)) categories)
