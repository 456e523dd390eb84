-- ===== src/Daemon/Controller/Peers.antt =====
-- crates/nexus-daemon/src/controller.rs: the peers that a controller over the router knows.
use nexus_kvm.Base.{
  ℕ, String, ◌≡◌, ◌⊎◌, inl, inr, true, false, none, some, List, arith, str_dec, All, ◌∷◌,
  Option-cases, [], map,
}
use nexus_kvm.Base.Dict.{lookup, tree_insert, lookup-tree_insert}
use nexus_kvm.Router.{Router, PeerEntry, snapshot, list_peers, is_connected, contains}
use nexus_kvm.Router.Published.{IsRegistered}
use nexus_kvm.Common.Model.{PeerId, Peer}
use nexus_kvm.Daemon.Adapter.{peer_of}
use nexus_kvm.Daemon.Controller.{status_connected, is_alive, collect}
use nexus_kvm.Daemon.Controller.Methods.{first_connected}

-- A listed peer that is connected is connected in the router.
abbrev IsBacked : List (String × PeerEntry) → String × Peer → Type 0
IsBacked peers (k, p) = (status_connected p ≡ false) ⊎ (is_connected peers p.id ≡ true)

insert-IsBacked :
    (peers : List (String × PeerEntry)) (k : String) (p : Peer) (m : List (String × Peer))
    → IsBacked peers (k, p)
    → All (IsBacked peers) m
    → All (IsBacked peers) (tree_insert k p m)
unfolding tree_insert
insert-IsBacked peers k p [] h a = (h, tt)
insert-IsBacked peers k p (e ∷ m) h a = ground (arith, insert-IsBacked peers k p m h a.1)

list_peers-none :
    (peers : List (String × PeerEntry)) (id : String) (order : List String)
    → lookup str_dec id peers ≡ none
    → list_peers peers (id ∷ order) ≡ list_peers peers order
unfolding list_peers
list_peers-none peers id order e = rw (e, list_peers)

list_peers-some :
    (peers : List (String × PeerEntry)) (id : String) (order : List String) (p : PeerEntry)
    → lookup str_dec id peers ≡ some p
    → list_peers peers (id ∷ order)
      ≡ record { id = id; address = p.address; connected = p.connected } ∷ list_peers peers order
unfolding list_peers
list_peers-some peers id order p e = rw (e, list_peers)

listed-IsBacked :
    (peers : List (String × PeerEntry)) (rtt : List (PeerId × ℕ)) (id : String) (p : PeerEntry)
    → lookup str_dec id peers ≡ some p
    → IsBacked peers
        (id, peer_of rtt (record { id = id; address = p.address; connected = p.connected }))
unfolding is_connected status_connected peer_of
listed-IsBacked peers rtt id p e = ground arith

collect-IsBacked :
    (peers : List (String × PeerEntry)) (rtt : List (PeerId × ℕ)) (order : List String)
    (m : List (String × Peer))
    → All (IsBacked peers) m
    → All (IsBacked peers) (collect m (map (peer_of rtt) (list_peers peers order)))
unfolding collect list_peers peer_of
collect-IsBacked peers rtt [] m a = a
collect-IsBacked peers rtt (id ∷ order) m a = elim (Option-cases (lookup str_dec id peers)) [
  | inl e ↦ rw (list_peers-none peers id order e) (collect-IsBacked peers rtt order m a)
  | inr (p, e) ↦ rw (list_peers-some peers id order p e) (
      collect-IsBacked peers rtt order _
        (insert-IsBacked peers id _ m (listed-IsBacked peers rtt id p e) a))
]

first-backed :
    (peers : List (String × PeerEntry)) (m : List (String × Peer)) (id : String)
    → All (IsBacked peers) m
    → first_connected m ≡ some id
    → is_connected peers id ≡ true
unfolding first_connected
first-backed peers [] id a h = cc
first-backed peers ((k, p) ∷ m) id a h = ground (arith, first-backed peers m id a.1)

-- What the listing of one more peer does for a peer that is connected in the router.
skipped :
    (peers : List (String × PeerEntry)) (x : String) (order : List String)
    (m : List (String × Peer)) (id : String)
    → is_connected peers id ≡ true
    → lookup str_dec x peers ≡ none
    → (contains id (x ∷ order) ≡ true) ⊎ (is_alive m id ≡ true)
    → (contains id order ≡ true) ⊎ (is_alive m id ≡ true)
unfolding is_connected
skipped peers x order m id up e h = ground arith

inserted :
    (peers : List (String × PeerEntry)) (rtt : List (PeerId × ℕ)) (x : String) (p : PeerEntry)
    (order : List String) (m : List (String × Peer)) (id : String)
    → is_connected peers id ≡ true
    → lookup str_dec x peers ≡ some p
    → (contains id (x ∷ order) ≡ true) ⊎ (is_alive m id ≡ true)
    → let q = peer_of rtt (record { id = x; address = p.address; connected = p.connected }) in
      (contains id order ≡ true) ⊎ (is_alive (tree_insert x q m) id ≡ true)
unfolding is_connected is_alive status_connected peer_of
inserted peers rtt x p order m id up e h =
    let q = peer_of rtt (record { id = x; address = p.address; connected = p.connected }) in
    ground (arith, lookup-tree_insert id x q m)

-- A listing keeps a peer alive that is connected in the router.
collect-alive :
    (peers : List (String × PeerEntry)) (rtt : List (PeerId × ℕ)) (order : List String)
    (m : List (String × Peer)) (id : String)
    → is_connected peers id ≡ true
    → (contains id order ≡ true) ⊎ (is_alive m id ≡ true)
    → is_alive (collect m (map (peer_of rtt) (list_peers peers order))) id ≡ true
unfolding collect list_peers peer_of
collect-alive peers rtt [] m id up (inl h) = cc
collect-alive peers rtt [] m id up (inr h) = h
collect-alive peers rtt (x ∷ order) m id up h = elim (Option-cases (lookup str_dec x peers)) [
  | inl e ↦
      rw (list_peers-none peers x order e)
        (collect-alive peers rtt order m id up (skipped peers x order m id up e h))
  | inr (p, e) ↦
      rw (list_peers-some peers x order p e)
        (collect-alive peers rtt order _ id up (inserted peers rtt x p order m id up e h))
]

-- The peers of the controller after a synchronisation.
abbrev pub listed : Router → List (PeerId × ℕ) → List (String × Peer)
listed r rtt = collect [] (map (peer_of rtt) (snapshot r).peers)

-- The peer that an edge crossing picks is connected in the router.
pub first_connected-up :
    (r : Router) (rtt : List (PeerId × ℕ)) (id : String)
    → first_connected (listed r rtt) ≡ some id
    → is_connected r.peers id ≡ true
unfolding snapshot
first_connected-up r rtt id h =
    first-backed r.peers (listed r rtt) id (collect-IsBacked r.peers rtt r.order [] tt) h

-- A peer that is connected in the router is alive for the controller.
pub listed-alive :
    (r : Router) (rtt : List (PeerId × ℕ)) (id : String)
    → IsRegistered r
    → is_connected r.peers id ≡ true
    → is_alive (listed r rtt) id ≡ true
unfolding snapshot
listed-alive r rtt id reg up = collect-alive r.peers rtt r.order [] id up (inl (reg id up))
