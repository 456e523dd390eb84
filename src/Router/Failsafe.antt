-- ===== src/Router/Failsafe.antt =====
-- rkvm-master/rkvm-server/src/target.rs: `remove_peer`, and the keys and warps of `Applied`.
use nexus_kvm.Base.{String, ◌≡◌, ◌≢◌, ite, Bool, true, false, none, some, List, [], arith, str_dec}
use nexus_kvm.Base.Dict.{remove, lookup-remove}
use nexus_kvm.Router.{
  Router, Key, Warp, local_target, event_target, fail_local, remove_peer, is_connected,
  alloc_transition, peer_return_allowed,
}
use nexus_kvm.Router.Switch.{
  take_warp, apply_switch, apply_local, switch_local_from_peer, switch_next, finish_chord,
}
use nexus_kvm.Router.Commands.{
  Command, prepares, activates, locals, locals_from_peer, releases, nexts, apply, warp_of,
}

-- What the loss of the peer `id` leaves: `r'` and the keys to release.
abbrev pub IsLost : Router → String → Router × List (Key × String) → Type 0
IsLost r id (r', keys) =
    (is_connected r'.peers id ≡ false)
    × (r'.active ≡ ite (str_dec r.active id) local_target r.active)
    × (event_target r' ≡ ite (str_dec r.active id) local_target (event_target r))
    × (keys ≡ ite (str_dec r.active id) r.held_keys [])
    × (r'.held_keys ≡ ite (str_dec r.active id) [] r.held_keys)

not_connected_removed :
    (r : Router) (id : String) → is_connected (remove str_dec id r.peers) id ≡ false
unfolding is_connected
not_connected_removed r id = ground (arith, lookup-remove str_dec id id r.peers)

-- A peer that is removed is no longer connected. If it had control, control and the events of a
-- chord go to this machine, and every held key is handed over and forgotten; if not, the target,
-- the destination of events and the held keys stay, and no key is handed over.
pub remove_peer-IsLost : (r : Router) (id : String) → IsLost r id (remove_peer r id)
unfolding remove_peer fail_local event_target
remove_peer-IsLost r id = ground (arith, not_connected_removed r id)

-- The commands that hand over every held key.
abbrev pub hands_over : Command → Bool
hands_over (prepares id w) = false
hands_over (activates id) = true
hands_over locals = true
hands_over locals_from_peer = false
hands_over (releases peer) = false
hands_over nexts = true

-- `Activate`, `Local` and `Next` hand over every held key for release and leave none, whether the
-- switch succeeds or not.
pub apply-keys :
    (c : Command) (r : Router)
    → hands_over c ≡ true
    → ((apply c r).applied.keys ≡ r.held_keys) × ((apply c r).router.held_keys ≡ [])
unfolding apply warp_of take_warp finish_chord apply_switch switch_next apply_local alloc_transition
apply-keys (prepares id w) r h = cc
apply-keys (activates id) r h = ground arith
apply-keys locals r h = ground arith
apply-keys locals_from_peer r h = cc
apply-keys (releases peer) r h = cc
apply-keys nexts r h = ground arith

-- A return that the peer asks for and that is honored forgets every held key, and hands none over
-- for release: `apply_local` clears the keys before `apply` drains them.
pub locals_from_peer-keys :
    (r : Router)
    → r.busy ≡ false
    → r.active ≢ local_target
    → peer_return_allowed r ≡ true
    → let o = apply locals_from_peer r in
      (o.router.active ≡ local_target) × (o.router.held_keys ≡ []) × (o.applied.keys ≡ [])
unfolding apply switch_local_from_peer apply_local alloc_transition
locals_from_peer-keys r idle away allowed = ground arith

-- A pointer warp is sent only by a command that moved control: its target is the active target
-- afterwards, its edge and position are those of the last `prepare`, the command succeeded, and the
-- warp is used up.
pub apply-warp :
    (c : Command) (r : Router) (target : String) (w : Warp)
    → (apply c r).applied.warp ≡ some (target, w)
    → ((apply c r).router.active ≡ target)
      × (r.pending_warp ≡ some w)
      × ((apply c r).router.pending_warp ≡ none)
unfolding apply warp_of take_warp finish_chord apply_switch switch_next apply_local alloc_transition
apply-warp (prepares id w) r target v h = cc
apply-warp (activates id) r target v h = ground arith
apply-warp locals r target v h = cc
apply-warp locals_from_peer r target v h = ground arith
apply-warp (releases peer) r target v h = cc
apply-warp nexts r target v h = ground arith
