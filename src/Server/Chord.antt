-- ===== src/Server/Chord.antt =====
-- rkvm-master/rkvm-server/src/server.rs: the shortcut, from the press of its last key.
use nexus_kvm.Base.{ℕ, String, ◌≡◌, refl, ap, ◌∙◌, ◌⊎◌, true, false, str_dec, [], is_ok, arith}
use nexus_kvm.Base.Dict.{lookup-remove}
use nexus_kvm.Base.Int.{ℤ, pos}
use nexus_kvm.Router.{
  Router, local_target, is_connected, note_remote_motion, fail_local, remove_peer, take_local_warp,
  alloc_transition,
}
use nexus_kvm.Router.Switch.{next_target, switch_next, apply_local, apply_switch}
use nexus_kvm.Router.Cycle.{switch_next_ok}
use nexus_kvm.Server.{
  rel_x, rel_y, rel_other, Event, key_event, rel_event, abs_event, other_abs, sync, Server,
}
use nexus_kvm.Server.Routing.{note_motion, emit_releases}
use nexus_kvm.Server.Handlers.{fire_chord, await_ready, arm_ready, settle_handoff}
use nexus_kvm.Server.Kept.{emit_releases-kept, settle_handoff-kept}
use nexus_kvm.Server.Rest.{Rest, rest-warp_home, rest-emit_releases}

-- No key is held, and control is at `target`, or at this machine because `target` is no longer
-- registered.
record IsAt (target : String) (r : Router) : Type 0 where
  drained : r.held_keys ≡ []
  there : (r.active ≡ target) ⊎ ((r.active ≡ local_target) × (is_connected r.peers target ≡ false))

moved-IsAt : (t : String) (r : Router) (dx dy : ℤ) → IsAt t r → IsAt t (note_remote_motion r dx dy)
unfolding note_remote_motion
moved-IsAt t r dx dy h = ground arith

note_motion-IsAt : (t : String) (e : Event) (r : Router) → IsAt t r → IsAt t (note_motion e r)
unfolding note_motion
note_motion-IsAt t (rel_event rel_x v) r h = moved-IsAt t r v (pos 0) h
note_motion-IsAt t (rel_event rel_y v) r h = moved-IsAt t r (pos 0) v h
note_motion-IsAt t (rel_event (rel_other n) v) r h = h
note_motion-IsAt t (key_event k d) r h = h
note_motion-IsAt t (abs_event a v) r h = h
note_motion-IsAt t (other_abs a v) r h = h
note_motion-IsAt t sync r h = h

remove_peer-IsAt : (t : String) (r : Router) (id : String) → IsAt t r → IsAt t (remove_peer r id).0
unfolding remove_peer fail_local is_connected
remove_peer-IsAt t r id h = ground (arith, lookup-remove str_dec t id r.peers)

take_local_warp-IsAt : (t : String) (r : Router) → IsAt t r → IsAt t (take_local_warp r).0
unfolding take_local_warp
take_local_warp-IsAt t r h = record { drained = h.drained; there = h.there }

switch_next-IsAt :
    (r : Router)
    → r.busy ≡ false
    → r.held_keys ≡ []
    → is_ok (switch_next r).1 ≡ true
    → IsAt (next_target r) (switch_next r).0
unfolding switch_next apply_local apply_switch alloc_transition
switch_next-IsAt r idle h done = ground arith

await_ready-shortcut :
    (now : ℕ) (s : Server)
    → ((await_ready now s).pressed_keys ≡ s.pressed_keys)
      × ((await_ready now s).chord_active ≡ s.chord_active)
unfolding await_ready arm_ready
await_ready-shortcut now s = ground arith

settle_handoff-shortcut :
    (now : ℕ) (s : Server)
    → ((settle_handoff now s).pressed_keys ≡ s.pressed_keys)
      × ((settle_handoff now s).chord_active ≡ s.chord_active)
unfolding settle_handoff
settle_handoff-shortcut now s = ground (arith, rest-warp_home s, await_ready-shortcut now s)

-- When the last key of the shortcut goes down between two calls of the router: control goes to the
-- next target of the cycle, or to this machine if that target is removed from the peers while keys are
-- released; no key is held, the shortcut is engaged, and no key of it counts as pressed.
pub fire_chord-IsAt :
    (now : ℕ) (s : Server)
    → s.router.busy ≡ false
    → let s' = fire_chord now s in
      let target = next_target (record s.router { held_keys = [] }) in
      (s'.pressed_keys ≡ [])
      × (s'.chord_active ≡ true)
      × (s'.router.held_keys ≡ [])
      × ((s'.router.active ≡ target)
          ⊎ ((s'.router.active ≡ local_target) × (is_connected s'.router.peers target ≡ false)))
unfolding fire_chord
fire_chord-IsAt now s idle =
    let drained = record s.router { held_keys = [] } in
    let target = next_target drained in
    let (t, fine) = switch_next_ok drained idle in
    let ready = record s {
      router = (switch_next drained).0;
      chord_active = true;
      pressed_keys = [];
    } in
    let released = emit_releases s.router.held_keys ready in
    let there =
      settle_handoff-kept (IsAt target) (note_motion-IsAt target) (remove_peer-IsAt target)
        (take_local_warp-IsAt target) now released
        (emit_releases-kept (IsAt target) (note_motion-IsAt target) (remove_peer-IsAt target)
          s.router.held_keys ready (switch_next-IsAt drained idle refl (ap is_ok fine))) in
    let (keys, engaged) = settle_handoff-shortcut now released in
    let same = rest-emit_releases s.router.held_keys ready in
    rw fine (
      keys ∙ ap (λ (x : Rest). x.pressed_keys) same,
      engaged ∙ ap (λ (x : Rest). x.chord_active) same,
      there.drained,
      there.there,
    )
