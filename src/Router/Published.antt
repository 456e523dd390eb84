-- ===== src/Router/Published.antt =====
-- rkvm-master/rkvm-server/src/target.rs: the snapshots that `drive_with` publishes.
use nexus_kvm.Base.{
  suc, String, ◌≡◌, refl, ◌⊎◌, inl, inr, Bool, true, ◌&&◌, none, some, List, [], ◌∷◌, arith,
  str_dec, holds, any_of, All, length,
}
use nexus_kvm.Router.{
  Router, PeerEntry, PeerSnapshot, Snapshot, local_target, snapshot, list_peers, is_connected,
  contains, alloc_transition,
}
use nexus_kvm.Router.Switch.{
  prepare, take_warp, apply_switch, apply_local, switch_local_from_peer, switch_next, finish_chord,
}
use nexus_kvm.Router.Keys.{release_all}
use nexus_kvm.Router.Commands.{
  Command, prepares, activates, locals, locals_from_peer, releases, nexts, apply, warp_of,
  drive_from, drive_with,
}
use nexus_kvm.Router.Invariant.{Inv, apply-Inv}

-- A peer that is connected is in the order of the shortcut.
abbrev pub IsRegistered : Router → Type 0
IsRegistered r = (id : String) → is_connected r.peers id ≡ true → contains id r.order ≡ true

-- The snapshot names a target that it lists as connected, or this machine.
abbrev pub lists : String → List PeerSnapshot → Bool
lists id = any_of (λ p. holds (str_dec p.id id) && p.connected)

abbrev pub IsHonest : Snapshot → Type 0
IsHonest s = (s.active_target ≡ local_target) ⊎ (lists s.active_target s.peers ≡ true)

list_peers-lists :
    (peers : List (String × PeerEntry)) (id : String) (order : List String)
    → contains id order ≡ true
    → is_connected peers id ≡ true
    → lists id (list_peers peers order) ≡ true
unfolding list_peers is_connected
list_peers-lists peers id [] h up = cc
list_peers-lists peers id (x ∷ order) h up = ground (arith, list_peers-lists peers id order)

pub snapshot-IsHonest : (r : Router) → Inv r → IsRegistered r → IsHonest (snapshot r)
unfolding snapshot
snapshot-IsHonest r v reg = elim v.reachable [
  | inl home ↦ inl home
  | inr up ↦ inr (list_peers-lists r.peers r.active r.order (reg r.active up) up)
]

-- Commands leave the peers alone.
apply-peers :
    (c : Command) (r : Router)
    → ((apply c r).router.order ≡ r.order) × ((apply c r).router.peers ≡ r.peers)
unfolding apply warp_of take_warp finish_chord prepare release_all switch_local_from_peer
    apply_switch switch_next apply_local alloc_transition
apply-peers (prepares id w) r = ground arith
apply-peers (activates id) r = ground arith
apply-peers locals r = ground arith
apply-peers locals_from_peer r = ground arith
apply-peers (releases none) r = ground arith
apply-peers (releases (some peer)) r = ground arith
apply-peers nexts r = ground arith

pub moved_registration :
    (r s : Router) → (s.order ≡ r.order) × (s.peers ≡ r.peers) → IsRegistered r → IsRegistered s
moved_registration r s e reg = λ id up. rw e.0 (reg id (rw e.1 at up))

pub apply-IsRegistered :
    (c : Command) (r : Router) → IsRegistered r → IsRegistered (apply c r).router
apply-IsRegistered c r reg = moved_registration r (apply c r).router (apply-peers c r) reg

drive_from-IsHonest :
    (r : Router) (cs : List Command)
    → Inv r
    → IsRegistered r
    → (length (drive_from r cs).1 ≡ length cs) × All IsHonest (drive_from r cs).1
unfolding drive_from
drive_from-IsHonest r [] v reg = (refl, tt)
drive_from-IsHonest r (c ∷ cs) v reg =
    let r' = (apply c r).router in
    let v' = apply-Inv c r v in
    let reg' = apply-IsRegistered c r reg in
    let (count, rest) = drive_from-IsHonest r' cs v' reg' in
    (omega (arith, count), (snapshot-IsHonest r' v' reg', rest))

-- The control loop publishes one snapshot at the start and one after each command, and each of them
-- names this machine or a peer that the same snapshot lists as connected.
pub drive_with-IsHonest :
    (r : Router) (cs : List Command)
    → Inv r
    → IsRegistered r
    → (length (drive_with r cs).1 ≡ suc (length cs)) × All IsHonest (drive_with r cs).1
unfolding drive_with
drive_with-IsHonest r cs v reg =
    let (count, rest) = drive_from-IsHonest r cs v reg in
    (omega (arith, count), (snapshot-IsHonest r v reg, rest))
