-- ===== src/Connections.antt =====
-- `ActiveConnections` of src/network_manager.rs, the table that the threads share under one lock. A
-- call is an action on the table and the world; the guard is held through it.
pub mod Checks
pub mod Calls
pub mod Limits
use peer_net.Base.{
  ℕ, ◌+◌, String, Option, none, some, Bool, true, false, List, [], ◌∷◌, ◌&&◌, Eq, ◌==◌, ltb,
  count_if, option_eq, string_eq, if◌then◌else◌,
}
use peer_net.Base.Dict.{Dict, lookup, insert, remove, contains_key, values}
use peer_net.Address.{SocketAddr, IpAddr, ip_of, ip_eq, to_canonical}
use peer_net.Act.{Outcome, ok, Act, pure, modify, ◌>>=◌, ◌>>◌}
use peer_net.Config.Category.{PeerNetCategoryInfo}
use peer_net.Os.{Os}
use peer_net.World.{World}
use peer_net.Endpoint.{Endpoint, get_target_addr}
use peer_net.Endpoint.Dispatch
use peer_net.PeerConnection.{
  PeerConnection, PeerConnectionType, in_, out, SendChannels, connection_type_eq,
}
use peer_net.Transport.{TransportType}

pub record ActiveConnections (PeerId : Type 0) : Type 0 where
  pub nb_in_connections : ℕ
  pub nb_out_connections : ℕ
  pub in_connection_queue : List SocketAddr
  pub out_connection_queue : List SocketAddr
  pub connections : Dict PeerId PeerConnection
  pub listeners : Dict SocketAddr TransportType

-- The state that `PeerNetManager::new` shares with its threads.
unfoldable pub empty : {PeerId : Type 0} → ActiveConnections PeerId
empty = record {
  nb_in_connections = 0;
  nb_out_connections = 0;
  in_connection_queue = [];
  out_connection_queue = [];
  connections = [];
  listeners = [];
}

-- `connection_ip` of the checks
abbrev pub connection_ip : PeerConnection → IpAddr
connection_ip c = to_canonical (ip_of (get_target_addr c.endpoint))

-- The loop of both checks: the connections of one type that have the address, and that have the
-- category.
unfoldable pub tally :
    PeerConnectionType → IpAddr → Option String → List PeerConnection → ℕ → ℕ → ℕ × ℕ
tally kind ip category [] nb_ip nb_category = (nb_ip, nb_category)
tally kind ip category (c ∷ cs) nb_ip nb_category =
    let counted = c.connection_type == kind in
    tally kind ip category cs (if counted && connection_ip c == ip then nb_ip + 1 else nb_ip)
      (if counted && c.category_name == category then nb_category + 1 else nb_category)

module _ {PeerId : Type 0} where
  unfoldable pub check_addr_accepted_pre_handshake :
      ActiveConnections PeerId → SocketAddr → Option String → PeerNetCategoryInfo → Bool
  unfolding tally
  check_addr_accepted_pre_handshake active addr category info =
      let (nb_ip, nb_category) =
        tally in_ (to_canonical (ip_of addr)) category (values active.connections) 0 0 in
      ltb nb_ip info.max_in_connections_per_ip && ltb nb_category info.max_in_connections

  unfoldable pub compute_counters : ActiveConnections PeerId → ActiveConnections PeerId
  compute_counters active = record active {
    nb_in_connections = count_if (λ c. c.connection_type == in_) (values active.connections);
    nb_out_connections = count_if (λ c. c.connection_type == out) (values active.connections);
  }

-- What the threads share.
pub record Shared (os : Os) (PeerId : Type 0) : Type 0 where
  pub active : ActiveConnections PeerId
  pub world : World os

module _ {os : Os} {PeerId : Type 0} where
  abbrev pub on_world : {A : Type 0} → Act (World os) A → Act (Shared os PeerId) A
  on_world m s = ((m s.world).0, record s { world = (m s.world).1 })

  abbrev pub on_active :
      (ActiveConnections PeerId → ActiveConnections PeerId) → Shared os PeerId → Shared os PeerId
  on_active f s = record s { active = f s.active }

module _ {PeerId : Type 0} ⦃e : Eq PeerId⦄ where
  unfoldable pub check_addr_accepted_post_handshake :
      ActiveConnections PeerId
      → SocketAddr
      → Option String
      → PeerNetCategoryInfo
      → PeerId
      → PeerConnectionType
      → Bool
  unfolding tally contains_key connection_type_eq
  check_addr_accepted_post_handshake active addr category info id kind =
      let (nb_ip, nb_category) =
        tally kind (to_canonical (ip_of addr)) category (values active.connections) 0 0 in
      if contains_key id active.connections
      then false
      else ltb nb_ip info.max_in_connections_per_ip
        && (if kind == in_
            then ltb nb_category info.max_in_connections
            else ltb nb_category info.max_out_connections)

module _ {os : Os} {PeerId : Type 0} ⦃e : Eq PeerId⦄ where
  unfoldable pub confirm_connection :
      PeerId
      → Endpoint
      → SendChannels
      → PeerConnectionType
      → Option String
      → PeerNetCategoryInfo
      → Act (Shared os PeerId) Bool
  confirm_connection id endpoint channels kind category info s =
      if check_addr_accepted_post_handshake s.active (get_target_addr endpoint) category info id
        kind
      then (
        ok true,
        on_active
            (λ active. compute_counters (record active {
              connections =
                  insert id
                    (record {
                      send_channels = channels;
                      category_name = category;
                      endpoint = endpoint;
                      connection_type = kind;
                    })
                    active.connections;
            }))
            s,
      )
      else (do
        on_world (Dispatch.shutdown endpoint)
        modify (on_active compute_counters)
        pure false)
          s

  -- What `remove_connection` does with the entry that it took out.
  close_removed : Option PeerConnection → Act (Shared os PeerId) (Unit {0})
  close_removed none = pure tt
  close_removed (some c) = do
    on_world (Dispatch.shutdown c.endpoint)
    modify (on_active compute_counters)

  unfoldable pub remove_connection : PeerId → Act (Shared os PeerId) (Unit {0})
  unfolding close_removed
  remove_connection id s =
      close_removed (lookup id s.active.connections)
        (on_active (λ active. record active { connections = remove id active.connections }) s)
