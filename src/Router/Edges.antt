-- ===== src/Router/Edges.antt =====
-- rkvm-master/rkvm-server/src/target.rs: `return_edge` and `pending_local_warp`.
use nexus_kvm.Base.{
  ℕ, zero, suc, ◌<◌, String, ◌≡◌, refl, ◌≢◌, true, false, none, some, List, [], arith,
}
use nexus_kvm.Base.Int.{ℤ}
use nexus_kvm.Router.{
  Router, Warp, local_target, is_connected, take_local_warp, alloc_transition, peer_return_allowed,
}
use nexus_kvm.Router.Travel.{note_motions, enter, enter-IsEntered, note_motions-gains}
use nexus_kvm.Router.Switch.{prepare, switch_local, apply_switch, apply_local, crossed_edge}

-- An edge that was prepared and then given up: the host crossed into `id`, the switch did not take
-- place, and control was asked back to this machine, where it already was.
abbrev pub aborted : Router → String → Warp → Router
aborted r id w = (switch_local (prepare r id (some w)).0).0

-- After a crossing that was given up, a switch by the shortcut to any connected peer finds the
-- stale edge: the peer's request for a return is refused, though no edge was crossed.
pub aborted-return_refused :
    (r : Router) (id other : String) (w : Warp)
    → r.busy ≡ false
    → r.active ≡ local_target
    → is_connected r.peers id ≡ true
    → is_connected r.peers other ≡ true
    → peer_return_allowed (apply_switch (aborted r id w) other true).0 ≡ false
unfolding prepare apply_switch apply_local alloc_transition peer_return_allowed
aborted-return_refused r id other w idle here up up' = ground arith

opposite_edge : (e : ℕ) → e < 4 → crossed_edge (crossed_edge e) ≡ e
unfolding crossed_edge
opposite_edge zero h = refl
opposite_edge (suc zero) h = refl
opposite_edge (suc (suc zero)) h = refl
opposite_edge (suc (suc (suc zero))) h = refl
opposite_edge (suc (suc (suc (suc e)))) h = absurd (omega arith)

-- A peer entered through `w`, motions on it, and the return.
abbrev pub visit : Router → String → Warp → List (ℤ × ℤ) → Router
visit r id w ms = (switch_local (note_motions (enter r id w) ms)).0

-- The edge that `prepare` is given comes back as the edge to push the local pointer away from, once
-- for each visit: it is the edge opposite to the remote's entry edge, and the second call of
-- `take_local_warp` finds none. No chord and no warp stay behind, and no held key.
pub visit-local_warp :
    (r : Router) (id : String) (w : Warp) (ms : List (ℤ × ℤ))
    → r.busy ≡ false
    → is_connected r.peers id ≡ true
    → id ≢ local_target
    → let home = visit r id w ms in
      let (r', edge) = take_local_warp home in
      (home.active ≡ local_target)
      × (edge ≡ some (crossed_edge w.0))
      × ((take_local_warp r').1 ≡ none)
      × (r'.return_edge ≡ none)
      × (r'.pending_warp ≡ none)
      × (r'.held_keys ≡ [])
unfolding apply_local alloc_transition take_local_warp
visit-local_warp r id w ms idle up away =
    ground (arith, enter-IsEntered r id w idle up, note_motions-gains (enter r id w) ms)
