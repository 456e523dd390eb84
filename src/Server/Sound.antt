-- ===== src/Server/Sound.antt =====
-- rkvm-master/rkvm-server/src/server.rs: the router of `run`, through every arm of the loop.
use nexus_kvm.Base.{
  ℕ, String, ◌≡◌, Bool, true, false, Option, List, [], ◌∷◌, ite_intro, if_intro, Option-cases, inl,
  inr, str_dec, is_ok, arith, not, ◌&&◌,
}
use nexus_kvm.Base.Float.{F32}
use nexus_kvm.Base.Int.{ℤ, pos}
use nexus_kvm.Router.{Router, Key, take_local_warp, drain_held, remove_peer}
use nexus_kvm.Router.Keys.{restore_held}
use nexus_kvm.Router.Switch.{switch_next}
use nexus_kvm.Router.Commands.{Command, locals, apply}
use nexus_kvm.Router.Events.{
  IsSound, handle, handle-IsSound, command, registers, removes, restores, drains, shortcut,
  chord_ends, moves, local_warp_taken,
}
use nexus_kvm.Server.{
  abs_event, other_abs, sync, rel_other, rel_event, rel_x, rel_y, Event, key_event, Channel, Update,
  Server,
}
use nexus_kvm.Server.Routing.{note_motion, route_events, emit_releases}
use nexus_kvm.Server.Kept.{
  route_events-kept, emit_releases-kept, emit_warp-kept, warp_home-kept, settle_handoff-kept,
}
use nexus_kvm.Server.Handlers.{
  dead_ids, is_due, finish_if, warp_home, settle_handoff, handle_command, handle_ready, remove_all,
  prune_and_release, revert_unconfirmed, handle_tick, handle_register, restore_all, fire_chord,
  finish_event,
}

note_motion-IsSound : (e : Event) (r : Router) → IsSound r → IsSound (note_motion e r)
unfolding note_motion handle
note_motion-IsSound (rel_event rel_x v) r h = handle-IsSound (moves v (pos 0)) r h
note_motion-IsSound (rel_event rel_y v) r h = handle-IsSound (moves (pos 0) v) r h
note_motion-IsSound (rel_event (rel_other n) v) r h = h
note_motion-IsSound (key_event k d) r h = h
note_motion-IsSound (abs_event a v) r h = h
note_motion-IsSound (other_abs a v) r h = h
note_motion-IsSound sync r h = h

removed-IsSound : (r : Router) (id : String) → IsSound r → IsSound (remove_peer r id).0
unfolding handle
removed-IsSound r id h = handle-IsSound (removes id) r h

route_events-IsSound :
    (device : ℕ) (dest : String) (events : List Event) (s : Server)
    → IsSound s.router
    → IsSound (route_events device dest events s).router
route_events-IsSound = route_events-kept IsSound note_motion-IsSound removed-IsSound

emit_releases-IsSound :
    (keys : List (Key × String)) (s : Server)
    → IsSound s.router
    → IsSound (emit_releases keys s).router
emit_releases-IsSound = emit_releases-kept IsSound note_motion-IsSound removed-IsSound

warp_taken-IsSound : (r : Router) → IsSound r → IsSound (take_local_warp r).0
unfolding handle
warp_taken-IsSound r h = handle-IsSound local_warp_taken r h

warp_home-IsSound : (s : Server) → IsSound s.router → IsSound (warp_home s).router
warp_home-IsSound = warp_home-kept IsSound note_motion-IsSound removed-IsSound warp_taken-IsSound

settle_handoff-IsSound :
    (now : ℕ) (s : Server) → IsSound s.router → IsSound (settle_handoff now s).router
settle_handoff-IsSound =
    settle_handoff-kept IsSound note_motion-IsSound removed-IsSound warp_taken-IsSound

pub handle_command-IsSound :
    (scaled : F32 → ℤ → ℤ → ℤ) (now : ℕ) (c : Command) (s : Server)
    → IsSound s.router
    → IsSound (handle_command scaled now c s).router
unfolding handle_command handle
handle_command-IsSound scaled now c s h =
    let o = apply c s.router in
    let released =
      emit_releases-IsSound o.applied.keys (record s { router = o.router })
        (handle-IsSound (command c) s.router h) in
    settle_handoff-IsSound now _ (elim (Option-cases o.applied.warp) [
      | inl e ↦ rw e released
      | inr ((target, (edge, x)), e) ↦ rw e (
          emit_warp-kept IsSound note_motion-IsSound removed-IsSound scaled target edge x _
            released)
    ])

remove_all-IsSound : (r : Router) (ids : List String) → IsSound r → IsSound (remove_all r ids).0
unfolding remove_all
remove_all-IsSound r [] h = h
remove_all-IsSound r (id ∷ ids) h =
    remove_all-IsSound (remove_peer r id).0 ids (removed-IsSound r id h)

pub prune_and_release-IsSound :
    (s : Server) → IsSound s.router → IsSound (prune_and_release s).router
unfolding prune_and_release
prune_and_release-IsSound s h =
    emit_releases-IsSound _ _ (remove_all-IsSound s.router (dead_ids s.clients) h)

pub revert_unconfirmed-IsSound :
    (s : Server) → IsSound s.router → IsSound (revert_unconfirmed s).router
unfolding revert_unconfirmed handle apply
revert_unconfirmed-IsSound s h = elim (Option-cases s.pending_ready) [
  | inl e ↦ rw (revert_unconfirmed, e) h
  | inr (p, e) ↦
      rw (revert_unconfirmed, e)
        (ite_intro (λ (t : Server). IsSound t.router) (str_dec s.router.active p.peer)
          (λ q. warp_home-IsSound _ (
            emit_releases-IsSound s.router.held_keys _
              (handle-IsSound (command locals) s.router h)))
          (λ q. h))
]

pub handle_tick-IsSound :
    (now : ℕ) (s : Server) → IsSound s.router → IsSound (handle_tick now s).router
unfolding handle_tick
handle_tick-IsSound now s h =
    let pruned = prune_and_release-IsSound s h in
    if_intro (λ (t : Server). IsSound t.router) (is_due now (prune_and_release s).pending_ready)
      (λ e. revert_unconfirmed-IsSound _ pruned) (λ e. pruned)

pub handle_ready-router :
    (peer : String) (epoch : ℕ) (s : Server) → (handle_ready peer epoch s).router ≡ s.router
unfolding handle_ready
handle_ready-router peer epoch s = ground arith

pub handle_register-IsSound :
    (id address : String) (sender : Channel Update) (s : Server)
    → IsSound s.router
    → IsSound (handle_register id address sender s).router
unfolding handle_register handle
handle_register-IsSound id address sender s h =
    handle-IsSound (registers id address) _ (prune_and_release-IsSound s h)

restore_all-IsSound :
    (keys : List (Key × String)) (r : Router) → IsSound r → IsSound (restore_all keys r)
unfolding restore_all handle
restore_all-IsSound [] r h = h
restore_all-IsSound ((k, dest) ∷ keys) r h =
    restore_all-IsSound keys (restore_held r k dest) (handle-IsSound (restores k dest) r h)

pub fire_chord-IsSound :
    (now : ℕ) (s : Server) → IsSound s.router → IsSound (fire_chord now s).router
unfolding fire_chord handle
fire_chord-IsSound now s h =
    let moved = handle-IsSound shortcut _ (handle-IsSound drains s.router h) in
    if_intro (λ (t : Server). IsSound t.router) (is_ok (switch_next (drain_held s.router).0).1)
      (λ e. settle_handoff-IsSound now _ (emit_releases-IsSound s.router.held_keys _ moved))
      (λ e. restore_all-IsSound s.router.held_keys _ moved)

finish_if-IsSound : (b : Bool) (s : Server) → IsSound s.router → IsSound (finish_if b s).router
unfolding handle
finish_if-IsSound true s h = handle-IsSound chord_ends s.router h
finish_if-IsSound false s h = h

pub finish_event-IsSound :
    (propagate : Bool) (device : ℕ) (e : Event) (press complete : Bool) (held : Option String)
    (s : Server)
    → IsSound s.router
    → IsSound (finish_event propagate device e press complete held s).router
unfolding finish_event
finish_event-IsSound propagate device e press complete held s h = finish_if-IsSound complete _ (
    if_intro (λ (t : Server). IsSound t.router) (press && (not propagate && s.chord_active))
      (λ q. h) (λ q. route_events-IsSound device _ _ _ h))
