-- ===== src/Server/Handoff.antt =====
-- rkvm-master/rkvm-server/src/server.rs: `revert_unconfirmed` and the handoffs that it ends.
use nexus_kvm.Base.{
  ℕ, String, ◌≡◌, refl, ap, ◌∙◌, ◌≢◌, true, false, none, some, ite_intro, arith, str_dec, leb,
}
use nexus_kvm.Base.Int.{ℤ, pos}
use nexus_kvm.Router.{
  Router, local_target, note_remote_motion, fail_local, remove_peer, drain_held, take_local_warp,
  alloc_transition,
}
use nexus_kvm.Router.Switch.{switch_local, apply_local}
use nexus_kvm.Router.Events.{IsSound}
use nexus_kvm.Server.{
  rel_x, rel_y, rel_other, Event, key_event, rel_event, abs_event, other_abs, sync, PendingReady,
  Server,
}
use nexus_kvm.Server.Routing.{note_motion, emit_releases}
use nexus_kvm.Server.Handlers.{
  settle_handoff, prune_and_release, revert_unconfirmed, is_due, handle_tick,
}
use nexus_kvm.Server.Kept.{emit_releases-kept, warp_home-kept}
use nexus_kvm.Server.Rest.{Rest, rest, rest-emit_releases, rest-warp_home}
use nexus_kvm.Server.Sound.{prune_and_release-IsSound}

IsHome : Router → Type 0
IsHome r = r.active ≡ local_target

moved-IsHome : (r : Router) (dx dy : ℤ) → IsHome r → IsHome (note_remote_motion r dx dy)
unfolding note_remote_motion IsHome
moved-IsHome r dx dy h = ground arith

note_motion-IsHome : (e : Event) (r : Router) → IsHome r → IsHome (note_motion e r)
unfolding note_motion
note_motion-IsHome (rel_event rel_x v) r h = moved-IsHome r v (pos 0) h
note_motion-IsHome (rel_event rel_y v) r h = moved-IsHome r (pos 0) v h
note_motion-IsHome (rel_event (rel_other n) v) r h = h
note_motion-IsHome (key_event k d) r h = h
note_motion-IsHome (abs_event a v) r h = h
note_motion-IsHome (other_abs a v) r h = h
note_motion-IsHome sync r h = h

remove_peer-IsHome : (r : Router) (id : String) → IsHome r → IsHome (remove_peer r id).0
unfolding remove_peer fail_local IsHome
remove_peer-IsHome r id h = ground arith

take_local_warp-IsHome : (r : Router) → IsHome r → IsHome (take_local_warp r).0
unfolding take_local_warp IsHome
take_local_warp-IsHome r h = h

switch_local-IsHome : (r : Router) → r.busy ≡ false → IsHome (switch_local r).0
unfolding apply_local alloc_transition IsHome
switch_local-IsHome r idle = ground arith

rest-prune_and_release : (s : Server) → rest (prune_and_release s) ≡ rest s
unfolding prune_and_release
rest-prune_and_release s = rest-emit_releases _ _

reverted :
    (s : Server) (p : PendingReady)
    → s.router.busy ≡ false
    → s.pending_ready ≡ some p
    → ((revert_unconfirmed s).pending_ready ≡ none)
      × (s.router.active ≡ p.peer → (revert_unconfirmed s).router.active ≡ local_target)
unfolding revert_unconfirmed IsHome
reverted s p idle e =
    let calm = record s {
      pending_ready = none;
      router = (switch_local (drain_held s.router).0).0;
    } in
    let released = emit_releases s.router.held_keys calm in
    let home =
      warp_home-kept IsHome note_motion-IsHome remove_peer-IsHome take_local_warp-IsHome released (
        emit_releases-kept IsHome note_motion-IsHome remove_peer-IsHome s.router.held_keys calm
          (switch_local-IsHome (drain_held s.router).0 idle)) in
    let same = rest-warp_home released ∙ rest-emit_releases s.router.held_keys calm in
    rw (revert_unconfirmed, e)
      (ite_intro
        (λ (t : Server).
          (t.pending_ready ≡ none) × (s.router.active ≡ p.peer → t.router.active ≡ local_target))
        (str_dec s.router.active p.peer)
        (λ q. (ap (λ (x : Rest). x.pending_ready) same, λ q'. home))
        (λ q. (refl, λ q'. absurd (q q'))))

-- When a peer was asked to confirm and the time is up, and the peer still has control after the lost
-- peers are removed, the next tick ends the wait and takes control back to this machine.
pub handle_tick-reverts :
    (now : ℕ) (s : Server) (p : PendingReady)
    → IsSound s.router
    → s.pending_ready ≡ some p
    → leb p.due now ≡ true
    → (prune_and_release s).router.active ≡ p.peer
    → ((handle_tick now s).pending_ready ≡ none)
      × ((handle_tick now s).router.active ≡ local_target)
unfolding handle_tick
handle_tick-reverts now s p sound e due there =
    let (v, reg) = prune_and_release-IsSound s sound in
    let kept = ap (λ (x : Rest). x.pending_ready) (rest-prune_and_release s) ∙ e in
    let is_time : is_due now (prune_and_release s).pending_ready ≡ true = rw kept due in
    let (ended, home) = reverted (prune_and_release s) p v.idle kept in
    rw is_time (ended, home there)

-- Settling a handoff to another peer while one waits sends nothing, and when the first wait then runs
-- out it is only forgotten: the second peer keeps control.
pub unwatched_handoff :
    (now : ℕ) (s : Server) (p : PendingReady)
    → s.pending_ready ≡ some p
    → s.router.active ≢ local_target
    → s.router.active ≢ p.peer
    → revert_unconfirmed (settle_handoff now s) ≡ record s { pending_ready = none }
unfolding settle_handoff revert_unconfirmed
unwatched_handoff now s p e away other = ground arith
