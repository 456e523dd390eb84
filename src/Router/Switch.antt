-- ===== src/Router/Switch.antt =====
-- rkvm-master/rkvm-server/src/target.rs: the methods of `TargetRouter` that choose the target.
use mathlib.Core.Option
use nexus_kvm.Base.{
  ℕ, zero, suc, ◌+◌, ◌%◌, String, ite, Bool, true, false, not, ◌&&◌, Option, none, some, List, [],
  ◌∷◌, if◌then◌else◌, holds, Result, ok, err, length, get_elem?, keep_if, str_dec,
}
use nexus_kvm.Router.{
  Router, TargetError, peer_unavailable, transition_in_progress, TransitionId, Warp, local_target,
  alloc_transition, is_connected, peer_return_allowed,
}

-- The crossed edge of the host, from the entry edge of the remote.
unfoldable pub crossed_edge : ℕ → ℕ
crossed_edge zero = 1
crossed_edge (suc zero) = 0
crossed_edge (suc (suc zero)) = 3
crossed_edge (suc (suc (suc e))) = 2

unfoldable pub prepare : Router → String → Option Warp → Router × Result (Unit {0}) TargetError
unfolding is_connected crossed_edge
prepare r id warp =
    if r.busy
    then (r, err transition_in_progress)
    else if is_connected r.peers id
    then (
      record r { return_edge = Option.map (λ w. crossed_edge w.0) warp; pending_warp = warp },
      ok tt,
    )
    else (r, err (peer_unavailable id))

unfoldable pub take_warp : Router → Router × Option Warp
take_warp r = (record r { pending_warp = none }, r.pending_warp)

-- The end of a transition: a fresh id, and `busy` is reset.
abbrev pub settle : Router → Router × Result TransitionId TargetError
settle r = let (r', t) = alloc_transition r in (record r' { busy = false }, ok t)

unfoldable pub apply_switch : Router → String → Bool → Router × Result TransitionId TargetError
unfolding is_connected alloc_transition
apply_switch r id from_chord =
    if r.busy
    then (r, err transition_in_progress)
    else if is_connected r.peers id
    then settle (record r {
      busy = true;
      previous = r.active;
      active = id;
      chord_changed = from_chord;
      remote_inward_px = 0;
    })
    else (r, err (peer_unavailable id))

abbrev pub switch_to : Router → String → Router × Result TransitionId TargetError
switch_to r id = apply_switch r id false

-- An id for a request that moves nothing.
abbrev pub acknowledge : Router → Router × Result TransitionId TargetError
acknowledge r = let (r', t) = alloc_transition r in (r', ok t)

unfoldable pub apply_local : Router → Bool → Router × Result TransitionId TargetError
unfolding alloc_transition
apply_local r from_chord =
    if r.busy
    then (r, err transition_in_progress)
    else if holds (str_dec r.active local_target) && not from_chord
    then acknowledge (record r { pending_warp = none })
    else settle (record r {
      busy = true;
      previous = r.active;
      active = local_target;
      chord_changed = from_chord;
      return_edge = none;
      pending_local_warp = r.return_edge;
      pending_warp = none;
      remote_inward_px = 0;
      held_keys = if from_chord then r.held_keys else [];
    })

abbrev pub switch_local : Router → Router × Result TransitionId TargetError
switch_local r = apply_local r false

unfoldable pub switch_local_from_peer : Router → Router × Result TransitionId TargetError
switch_local_from_peer r =
    if not (holds (str_dec r.active local_target)) && not (peer_return_allowed r)
    then acknowledge r
    else apply_local r false

-- The targets of the shortcut: this machine, then the connected peers in the order of insertion.
unfoldable pub cycle : Router → List String
unfolding is_connected
cycle r = local_target ∷ keep_if (is_connected r.peers) r.order

-- `iter().position(|id| id == &self.active)`
unfoldable pub position : String → List String → Option ℕ
position id [] = none
position id (x ∷ xs) = ite (str_dec x id) (some 0) (Option.map suc (position id xs))

-- The successor of the active target. The index is in range, so the default is not used.
unfoldable pub next_target : Router → String
unfolding cycle position
next_target r =
    let i = Option.get_or (position r.active (cycle r)) 0 in
    Option.get_or (get_elem? (cycle r) ((i + 1) % length (cycle r))) local_target

unfoldable pub switch_next : Router → Router × Result TransitionId TargetError
switch_next r =
    ite (str_dec (next_target r) local_target) (apply_local r true)
      (apply_switch r (next_target r) true)

unfoldable pub finish_chord : Router → Router
finish_chord r = record r { chord_changed = false }
