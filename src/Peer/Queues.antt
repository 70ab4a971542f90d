-- ===== src/Peer/Queues.antt =====
-- What the first part of a peer's thread does to the queues of pending connections.
use peer_net.Base.{
  ◌≡◌, refl, ◌∙◌, ap, ◌⊎◌, String, Option, false, Eq, ◌==◌, List, contains, set_remove,
  contains-set_remove, if◌then◌else◌,
}
use peer_net.Address.{SocketAddr, addr_eq}
use peer_net.Act.{ok, err}
use peer_net.Config.Category.{PeerNetCategoryInfo}
use peer_net.Error.{PeerNetErrorData}
use peer_net.Os.{Os}
use peer_net.Endpoint.{Endpoint, get_target_addr}
use peer_net.PeerConnection.{PeerConnectionType, in_, out}
use peer_net.Connections.{ActiveConnections, Shared}
use peer_net.Connections.Calls.{SameQueues}
use peer_net.Peer.{Handler, leave_queue, setup}
use peer_net.Peer.Setup.{handshake, left, setup-SameQueues}

abbrev pub queue_of :
    {PeerId : Type 0} → PeerConnectionType → ActiveConnections PeerId → List SocketAddr
queue_of in_ active = active.in_connection_queue
queue_of out active = active.out_connection_queue

abbrev pub other_type : PeerConnectionType → PeerConnectionType
other_type in_ = out
other_type out = in_

queue_of-leave_queue :
    {PeerId : Type 0} (kind : PeerConnectionType) (endpoint : Endpoint)
    (active : ActiveConnections PeerId)
    → (queue_of kind (leave_queue kind endpoint active)
        ≡ set_remove (get_target_addr endpoint) (queue_of kind active))
      × (queue_of (other_type kind) (leave_queue kind endpoint active)
          ≡ queue_of (other_type kind) active)
unfolding leave_queue
queue_of-leave_queue in_ endpoint active = (refl, refl)
queue_of-leave_queue out endpoint active = (refl, refl)

queue_of-SameQueues :
    {PeerId : Type 0} (k : PeerConnectionType) (a b : ActiveConnections PeerId)
    → SameQueues a b
    → queue_of k a ≡ queue_of k b
queue_of-SameQueues in_ a b p = p.0
queue_of-SameQueues out a b p = p.1

module _ {os : Os} {PeerId : Type 0} ⦃e : Eq PeerId⦄ (handler : Handler os PeerId)
    (endpoint : Endpoint) (kind : PeerConnectionType) (category : Option String)
    (info : PeerNetCategoryInfo) (s : Shared os PeerId) where
  -- If the handshake returns, with a peer or with an error, then on every way through the first part
  -- of the thread, a panic included, the address of the endpoint leaves the queue of its type. No
  -- other address enters or leaves that queue, and the other queue stays as it is.
  pub setup_leaves_queue :
      ((id : PeerId) × ((handshake handler endpoint kind category info s).0 ≡ ok id))
        ⊎ ((x : PeerNetErrorData) × ((handshake handler endpoint kind category info s).0 ≡ err x))
      → ((address : SocketAddr)
          → contains (queue_of kind (setup handler endpoint kind category info s).1.active) address
            ≡ (if address == get_target_addr endpoint
                then false
                else contains (queue_of kind s.active) address))
        × (queue_of (other_type kind) (setup handler endpoint kind category info s).1.active
            ≡ queue_of (other_type kind) s.active)
  setup_leaves_queue returned =
      let after = (setup handler endpoint kind category info s).1.active in
      let before = left handler endpoint kind category info s in
      let same = setup-SameQueues handler endpoint kind category info s returned in
      let (own_queue, other_queue) = queue_of-leave_queue kind endpoint s.active in
      (
        λ address.
            ap (λ q. contains q address) (queue_of-SameQueues kind after before same ∙ own_queue)
            ∙ contains-set_remove (get_target_addr endpoint) address (queue_of kind s.active),
        queue_of-SameQueues (other_type kind) after before same ∙ other_queue,
      )
