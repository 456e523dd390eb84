-- ===== src/Daemon/Controller/Calls.antt =====
-- crates/nexus-daemon/src/controller.rs: the state of the controller beside the target of the router,
-- in the public methods.
use nexus_kvm.Base.{
  ℕ, String, inl, inr, not, ◌&&◌, ◌||◌, none, some, holds, str_dec, Bool-cases, Result-cases,
  Option-cases, [], map, if_intro, holds-true,
}
use nexus_kvm.Base.Float.{F32}
use nexus_kvm.Router.{local_target, snapshot}
use nexus_kvm.Router.Invariant.{Inv}
use nexus_kvm.Router.Commands.{locals, locals_from_peer, releases, nexts}
use nexus_kvm.Common.Model.{PeerId, Edge, EntryPoint}
use nexus_kvm.Common.Geometry.{entry_for}
use nexus_kvm.Daemon.Adapter.{Host, send, prompt_adapter, adapter_peers, peer_of}
use nexus_kvm.Daemon.Adapter.Calls.{send-Inv, send-locals, send-nexts, send-locals_from_peer}
use nexus_kvm.Daemon.Controller.{
  within, edge_containment, in_transition, is_alive, mark_transition, collect, was_returning,
}
use nexus_kvm.Daemon.Controller.Truth.{
  Daemon, IsTrue, IsReady, synced, at_target-IsTrue, heal_transition-settled, sync_target-IsTrue,
  ensure_local_transport-IsTrue, switch_locked-IsTrue,
}
use nexus_kvm.Daemon.Controller.Methods.{
  Moved, settle_home, refresh_peers, sync_target, cross_edge, switch_edge, switch_checked,
  switch_to, note_next, next, first_connected, release_current, go_local, take_local,
  local_from_peer, recover,
}

-- The controller that a method leaves beside its result.
pub record Leaves (m : Daemon × Moved) : Type 0 where
  pub after : IsTrue m.0

cross_edge-IsTrue :
    (id now : ℕ) (side : Edge) (x : F32) (c : Daemon)
    → IsTrue c
    → Leaves (cross_edge prompt_adapter id now side x c)
unfolding cross_edge
cross_edge-IsTrue id now side x c v =
    if_intro Leaves (not (holds (str_dec c.transport.router.active local_target)))
      (λ e. record { after = v })
      λ e.
        if_intro Leaves (within now edge_containment c.last_transition_at)
          (λ e'. record { after = v })
          λ e'. elim (Option-cases (first_connected c.peers)) [
            | inl none_up ↦ rw none_up (record { after = v })
            | inr (peer, up) ↦
                rw up
                  (record { after = switch_locked-IsTrue id now peer (entry_for side x) c v.sound })
          ]

pub switch_edge-IsTrue :
    (id now : ℕ) (side : Edge) (x : F32) (c : Daemon)
    → IsReady c
    → Leaves (switch_edge prompt_adapter id now side x c)
unfolding switch_edge
switch_edge-IsTrue id now side x c v =
    let (done, v') = sync_target-IsTrue c v in
    rw (done, switch_edge) (cross_edge-IsTrue id now side x _ v')

switch_checked-IsTrue :
    (id now : ℕ) (peer : PeerId) (entry : EntryPoint) (c : Daemon)
    → IsTrue c
    → Leaves (switch_checked prompt_adapter id now peer entry c)
unfolding switch_checked
switch_checked-IsTrue id now peer entry c v =
    if_intro Leaves (not (is_alive c.peers peer)) (λ e. record { after = v })
      λ e.
        if_intro Leaves (in_transition c.state) (λ e'. record { after = v })
          λ e'. record { after = switch_locked-IsTrue id now peer entry c v.sound }

pub switch_to-IsTrue :
    (id now : ℕ) (peer : PeerId) (entry : EntryPoint) (c : Daemon)
    → IsReady c
    → Leaves (switch_to prompt_adapter id now peer entry c)
unfolding switch_to refresh_peers adapter_peers
switch_to-IsTrue id now peer entry c v =
    let v' = at_target-IsTrue (synced c) v.sound in
    rw
      (heal_transition-settled c.transport.router.active
        (record c {
          peers = collect [] (map (peer_of c.transport.rtt) (snapshot c.transport.router).peers);
          active_target = c.transport.router.active;
        })
        v.settled)
      (switch_checked-IsTrue id now peer entry _ (
        if_intro IsTrue
          (was_returning c.state
            || (not (holds (str_dec c.transport.router.active local_target))
                && not (is_alive (synced c).peers c.transport.router.active)))
          (λ e. ensure_local_transport-IsTrue (synced c) v.sound) (λ e. v')))

note_next-IsTrue :
    (id now : ℕ) (before : PeerId) (c : Daemon)
    → Inv c.transport.router
    → Leaves (note_next prompt_adapter id now before c)
unfolding note_next
note_next-IsTrue id now before c v =
    let v' = at_target-IsTrue (mark_transition now c) v in
    if_intro Leaves (holds (str_dec c.transport.router.active before))
      (λ e.
        if_intro Leaves (holds (str_dec c.transport.router.active local_target))
          (λ e'. record { after = v' }) (λ e'. record { after = v' }))
      (λ e. record { after = v' })

go_local-IsTrue :
    (id now : ℕ) (arrive : Daemon → Daemon) (c : Daemon)
    → ((d : Daemon) → IsTrue d → IsTrue (arrive d))
    → Inv c.transport.router
    → Leaves (go_local prompt_adapter id now arrive c)
unfolding go_local
go_local-IsTrue id now arrive c keep v =
    let (done, home) = send-locals c.transport v in
    rw (done, go_local)
      (record { after = keep _ (record { sound = send-Inv locals c.transport v; agrees = home }) })

pub refresh_peers-IsTrue : (c : Daemon) → IsTrue c → IsTrue (refresh_peers prompt_adapter c).0
unfolding refresh_peers adapter_peers
refresh_peers-IsTrue c v = record { sound = v.sound; agrees = v.agrees }

pub release_current-Inv :
    (current : PeerId) (h : Host)
    → Inv h.router
    → Inv (release_current prompt_adapter current h).router
unfolding release_current
release_current-Inv current h v =
    let v' = send-Inv (releases (some current)) h v in
    if_intro (λ (w : Host). Inv w.router) (holds (str_dec current local_target)) (λ e. v)
      λ e. elim (Result-cases (send (releases (some current)) h).1) [
        | inl (u, ok') ↦ rw ok' v'
        | inr (x, bad) ↦ rw bad (send-Inv (releases none) _ v')
      ]

pub take_local-IsTrue :
    (id now : ℕ) (c : Daemon) → Inv c.transport.router → Leaves (take_local prompt_adapter id now c)
unfolding take_local
take_local-IsTrue id now c v =
    go_local-IsTrue id now _ _ refresh_peers-IsTrue
      (release_current-Inv c.transport.router.active c.transport v)

pub recover-IsTrue :
    (now : ℕ) (reason : String) (c : Daemon)
    → Inv c.transport.router
    → Leaves (recover prompt_adapter now reason c)
unfolding recover
recover-IsTrue now reason c v =
    go_local-IsTrue _ now _ _ (λ d k. k) (send-Inv (releases none) c.transport v)

pub next-IsTrue : (id now : ℕ) (c : Daemon) → IsReady c → Leaves (next prompt_adapter id now c)
unfolding next
next-IsTrue id now c v =
    let (done, v') = sync_target-IsTrue c v in
    let d = (sync_target prompt_adapter c).0 in
    let w = (send nexts d.transport).0 in
    let v'' = send-Inv nexts d.transport v'.sound in
    rw (done, send-nexts d.transport v'.sound, next)
      (note_next-IsTrue id now d.transport.router.active (record d { transport = w }) v'')

pub local_from_peer-IsTrue :
    (id now : ℕ) (c : Daemon) → IsTrue c → Leaves (local_from_peer prompt_adapter id now c)
unfolding local_from_peer
local_from_peer-IsTrue id now c v =
    let w = (send locals_from_peer c.transport).0 in
    let v' = send-Inv locals_from_peer c.transport v.sound in
    elim (Bool-cases (holds (str_dec c.transport.router.active local_target))) [
      | inl home ↦ rw (home, local_from_peer) (record { after = v })
      | inr away ↦
          rw (away, send-locals_from_peer c.transport v.sound, local_from_peer)
            (record {
              after =
                  if_intro IsTrue (holds (str_dec w.router.active local_target))
                    (λ e.
                      refresh_peers-IsTrue
                        (settle_home (mark_transition now (record c { transport = w })))
                        (record { sound = v'; agrees = holds-true _ e }))
                    (λ e. at_target-IsTrue (record c { transport = w }) v');
            })
    ]
