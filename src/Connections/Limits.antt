-- ===== src/Connections/Limits.antt =====
-- What holds of the table after any history of confirmations and removals, by any threads: the lock
-- makes each call one step.
use native.Mathlib.Nat.{le_trans}
use peer_net.Base.{
  ℕ, ◌+◌, ◌≤◌, ◌<◌, ◌≡◌, refl, inl, inr, String, Option, Bool, true, false, List, [], ◌∷◌, ◌&&◌, Eq,
  ◌==◌, Bool-cases, arith, option_eq, string_eq, if◌then◌else◌,
}
use peer_net.Base.Dict.{count_if-insert, count_if-remove-le}
use peer_net.Address.{IpAddr, ip_of, ip_eq, to_canonical}
use peer_net.Config.Category.{PeerNetCategoryInfo}
use peer_net.Os.{Os}
use peer_net.Endpoint.{Endpoint, get_target_addr}
use peer_net.PeerConnection.{PeerConnection, PeerConnectionType, SendChannels, connection_type_eq}
use peer_net.Connections.{ActiveConnections, Shared, confirm_connection, remove_connection}
use peer_net.Connections.Checks.{
  is_at, is_in_category, nb_at, nb_in_category, max_of, check_addr_accepted_post_handshake_iff,
}
use peer_net.Connections.Calls.{
  entry, confirm_accepted, confirm_refused, accepted, connections-remove_connection,
}

-- Limits for every address and every category.
pub record Policy : Type 0 where
  pub per_ip : IpAddr → ℕ
  pub per_category : PeerConnectionType → Option String → ℕ

-- The limits that a confirmation is made with are within the policy.
pub record Follows (policy : Policy) (endpoint : Endpoint) (category : Option String)
    (info : PeerNetCategoryInfo) : Type 0 where
  pub ip_limit :
      info.max_in_connections_per_ip
      ≤ policy.per_ip (to_canonical (ip_of (get_target_addr endpoint)))
  pub category_limit :
      (kind : PeerConnectionType) → max_of kind info ≤ policy.per_category kind category

-- The table keeps the policy: for connections of either type, at each address and in each category.
pub record IsWithin (policy : Policy) {PeerId : Type 0} (active : ActiveConnections PeerId)
    : Type 0 where
  pub at_ip : (kind : PeerConnectionType) (ip : IpAddr) → nb_at active kind ip ≤ policy.per_ip ip
  pub in_category :
      (kind : PeerConnectionType) (category : Option String)
      → nb_in_category active kind category ≤ policy.per_category kind category

-- A count goes up by at most one, and only if it was under the limit.
count-le :
    (p : Bool) (n m limit : ℕ)
    → m ≡ (if p then 1 else 0) + n
    → n ≤ limit
    → (p ≡ true → n < limit)
    → m ≤ limit
count-le true n m limit e h k = omega (arith, k refl)
count-le false n m limit e h k = omega arith

lt_le_trans : {a b c : ℕ} → a < b → b ≤ c → a < c
lt_le_trans h k = omega arith

test_both :
    {A B : Type 0} ⦃a : Eq A⦄ ⦃b : Eq B⦄ (x x' : A) (y y' : B)
    → (x == x' && y == y') ≡ true
    → (x ≡ x') × (y ≡ y')
test_both x x' y y' h = ground arith

module _ {os : Os} {PeerId : Type 0} ⦃e : Eq PeerId⦄ (policy : Policy) where
  module _ (s : Shared os PeerId) (id : PeerId) (endpoint : Endpoint) (channels : SendChannels)
      (kind : PeerConnectionType) (category : Option String) (info : PeerNetCategoryInfo) where
    abbrev new_entry : PeerConnection
    new_entry = entry s id endpoint channels kind category info

    abbrev confirmed : Shared os PeerId
    confirmed = (confirm_connection id endpoint channels kind category info s).1

    confirm-IsWithin :
        Follows policy endpoint category info
        → IsWithin policy s.active
        → IsWithin policy confirmed.active
    confirm-IsWithin follows within =
        elim (Bool-cases (accepted s id endpoint channels kind category info)) [
          | inl yes' ↦
              let (_, table, _) = confirm_accepted s id endpoint channels kind category info yes' in
              let (fresh, ip_room, category_room) =
                (check_addr_accepted_post_handshake_iff s.active (get_target_addr endpoint) category
                    info id kind).0
                  yes' in
              record {
                at_ip = λ k ip. rw table (
                    count-le (is_at k ip new_entry) _ _ _
                      (count_if-insert (is_at k ip) id new_entry s.active.connections fresh)
                      (within.at_ip k ip)
                      (λ hit.
                        let (same_kind, same_ip) = test_both kind k _ ip hit in
                        rw (← same_kind, ← same_ip) (lt_le_trans ip_room follows.ip_limit)));
                in_category = λ k c. rw table (
                    count-le (is_in_category k c new_entry) _ _ _
                      (count_if-insert (is_in_category k c) id new_entry s.active.connections fresh)
                      (within.in_category k c)
                      (λ hit.
                        let (same_kind, same_category) = test_both kind k category c hit in
                        rw (← same_kind, ← same_category)
                          (lt_le_trans category_room (follows.category_limit kind))));
              }
          | inr no' ↦
              let (_, table, _) = confirm_refused s id endpoint channels kind category info no' in
              record {
                at_ip = λ k ip. rw table (within.at_ip k ip);
                in_category = λ k c. rw table (within.in_category k c);
              }
        ]

  remove-IsWithin :
      (s : Shared os PeerId) (id : PeerId)
      → IsWithin policy s.active
      → IsWithin policy (remove_connection id s).1.active
  remove-IsWithin s id within =
      let table = connections-remove_connection s id in
      let fewer = λ (p : PeerConnection → Bool). count_if-remove-le p id s.active.connections in
      record {
        at_ip = λ k ip. rw table (le_trans (fewer (is_at k ip)) (within.at_ip k ip));
        in_category =
            λ k c. rw table (le_trans (fewer (is_in_category k c)) (within.in_category k c));
      }

-- A call on the table by some thread.
pub data Call (PeerId : Type 0) : Type 0 where
  confirms :
      PeerId
      → Endpoint
      → SendChannels
      → PeerConnectionType
      → Option String
      → PeerNetCategoryInfo
      → Call PeerId
  removes : PeerId → Call PeerId

module _ {os : Os} {PeerId : Type 0} ⦃e : Eq PeerId⦄ where
  -- A thread that panics lets go of the lock, and the others go on with what it left.
  unfoldable pub perform : Call PeerId → Shared os PeerId → Shared os PeerId
  perform (confirms id endpoint channels kind category info) s =
      (confirm_connection id endpoint channels kind category info s).1
  perform (removes id) s = (remove_connection id s).1

  unfoldable pub run : List (Call PeerId) → Shared os PeerId → Shared os PeerId
  unfolding perform
  run [] s = s
  run (c ∷ cs) s = run cs (perform c s)

abbrev pub CallFollows : Policy → {PeerId : Type 0} → Call PeerId → Type 0
CallFollows policy (confirms id endpoint channels kind category info) =
    Follows policy endpoint category info
CallFollows policy (removes id) = Unit

abbrev pub All : {PeerId : Type 0} → (Call PeerId → Type 0) → List (Call PeerId) → Type 0
All P [] = Unit
All P (c ∷ cs) = P c × All P cs

module _ {os : Os} {PeerId : Type 0} ⦃e : Eq PeerId⦄ (policy : Policy) where
  perform-IsWithin :
      (c : Call PeerId) (s : Shared os PeerId)
      → CallFollows policy c
      → IsWithin policy s.active
      → IsWithin policy (perform c s).active
  unfolding perform
  perform-IsWithin (confirms id endpoint channels kind category info) s follows within =
      confirm-IsWithin policy s id endpoint channels kind category info follows within
  perform-IsWithin (removes id) s _ within = remove-IsWithin policy s id within

  -- As long as every confirmation is made with limits that are within the policy, the table keeps the
  -- policy through every history of calls, those that panic included: the connections of each type are
  -- never more than the limit at any address, nor in any category.
  pub run-IsWithin :
      (cs : List (Call PeerId)) (s : Shared os PeerId)
      → All (CallFollows policy) cs
      → IsWithin policy s.active
      → IsWithin policy (run cs s).active
  unfolding run
  run-IsWithin [] s _ within = within
  run-IsWithin (c ∷ cs) s follows within =
      run-IsWithin cs (perform c s) follows.1 (perform-IsWithin c s follows.0 within)
