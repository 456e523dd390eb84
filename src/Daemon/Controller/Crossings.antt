-- ===== src/Daemon/Controller/Crossings.antt =====
-- crates/nexus-daemon/src/controller.rs: `switch_edge`, from either machine and at any time.
use nexus_kvm.Base.{
  ℕ, ◌≡◌, refl, ◌∙◌, ap, ◌≢◌, ◌⊎◌, inl, inr, Bool, true, false, some, arith, ok, str_dec,
}
use nexus_kvm.Base.Float.{F32}
use nexus_kvm.Router.{local_target, is_connected}
use nexus_kvm.Router.Published.{IsRegistered}
use nexus_kvm.Common.Model.{PeerId, Edge, RuntimeState, remote, returning_local, recovering}
use nexus_kvm.Common.Geometry.{entry_for}
use nexus_kvm.Daemon.Adapter.{prompt_adapter, edge_code}
use nexus_kvm.Daemon.Controller.{
  within, edge_containment, nil_id, in_transition, is_alive, was_returning,
}
use nexus_kvm.Daemon.Controller.Truth.{Daemon, IsReady, synced, sync_target_form}
use nexus_kvm.Daemon.Controller.Methods.{
  force_local, sync_target, activate_locked, switch_locked, cross_edge, switch_edge,
  first_connected,
}
use nexus_kvm.Router.Switch.{crossed_edge}
use nexus_kvm.Daemon.Transport.{Answer}
use nexus_kvm.Daemon.Adapter.Calls.{send-crosses}
use nexus_kvm.Daemon.Controller.Peers.{listed, first_connected-up, listed-alive}

not_returning : (s : RuntimeState) → in_transition s ≡ false → was_returning s ≡ false
unfolding in_transition was_returning
not_returning (returning_local id) h = cc
not_returning (recovering reason) h = cc
not_returning s h = refl

-- Nothing is forced while control is here, or with a peer that is alive.
kept_at_home :
    (c : Daemon)
    → c.transport.router.active ≡ local_target
    → (returning : Bool) → force_local prompt_adapter c.transport.router.active returning c ≡ c
unfolding force_local
kept_at_home c home returning = ground arith

kept_away :
    (c : Daemon) (returning : Bool)
    → returning ≡ false
    → is_alive c.peers c.transport.router.active ≡ true
    → force_local prompt_adapter c.transport.router.active returning c ≡ c
unfolding force_local
kept_away c returning r h = ground arith

synced_at_home :
    (c : Daemon)
    → IsReady c
    → c.transport.router.active ≡ local_target
    → sync_target prompt_adapter c ≡ (synced c, ok tt)
synced_at_home c v home =
    sync_target_form c v.settled
    ∙ ap (λ d. (d, ok tt)) (kept_at_home (synced c) home (was_returning c.state))

synced_away :
    (c : Daemon)
    → IsReady c
    → IsRegistered c.transport.router
    → is_connected c.transport.router.peers c.transport.router.active ≡ true
    → sync_target prompt_adapter c ≡ (synced c, ok tt)
synced_away c v reg up =
    sync_target_form c v.settled
    ∙ ap (λ d. (d, ok tt))
        (kept_away (synced c) (was_returning c.state) (not_returning c.state v.settled)
          (listed-alive c.transport.router c.transport.rtt c.transport.router.active reg up))

after_sync :
    (id now : ℕ) (side : Edge) (x : F32) (c : Daemon)
    → sync_target prompt_adapter c ≡ (synced c, ok tt)
    → switch_edge prompt_adapter id now side x c
      ≡ cross_edge prompt_adapter id now side x (synced c)
unfolding switch_edge
after_sync id now side x c e =
    let done = ap (λ (m : Daemon × Answer). m.1) e in
    let left = ap (λ (m : Daemon × Answer). m.0) e in
    rw (done, switch_edge) (ap (cross_edge prompt_adapter id now side x) left)

cross_away :
    (id now : ℕ) (side : Edge) (x : F32) (c : Daemon)
    → c.transport.router.active ≢ local_target
    → cross_edge prompt_adapter id now side x c ≡ (c, ok nil_id)
unfolding cross_edge
cross_away id now side x c away = ground arith

cross_early :
    (id now : ℕ) (side : Edge) (x : F32) (c : Daemon)
    → c.transport.router.active ≡ local_target
    → within now edge_containment c.last_transition_at ≡ true
    → cross_edge prompt_adapter id now side x c ≡ (c, ok nil_id)
unfolding cross_edge
cross_early id now side x c home early = ground arith

-- A crossing while a peer has control, or within 750 milliseconds of the last transition, is
-- answered with the nil id and changes nothing in the router: not the target, the warps nor the keys.
-- The time of the last transition stays, so crossings that are contained do not prolong the window.
pub switch_edge_contained :
    (id now : ℕ) (side : Edge) (x : F32) (c : Daemon)
    → IsReady c
    → IsRegistered c.transport.router
    → (c.transport.router.active ≢ local_target)
      ⊎ (within now edge_containment c.last_transition_at ≡ true)
    → let (c', answer) = switch_edge prompt_adapter id now side x c in
      (answer ≡ ok nil_id)
      × (c'.transport ≡ c.transport)
      × (c'.last_transition_at ≡ c.last_transition_at)
switch_edge_contained id now side x c v reg h = elim (v.sound.reachable) [
  | inl home ↦
      rw
        (after_sync id now side x c (synced_at_home c v home)
          ∙ cross_early id now side x (synced c) home (early home h))
        (refl, refl, refl)
  | inr up ↦ elim (str_dec c.transport.router.active local_target) [
    | yes home ↦
        rw
          (after_sync id now side x c (synced_at_home c v home)
            ∙ cross_early id now side x (synced c) home (early home h))
          (refl, refl, refl)
    | no away ↦
        rw
          (after_sync id now side x c (synced_away c v reg up)
            ∙ cross_away id now side x (synced c) away)
          (refl, refl, refl)
  ]
]
  where
    early :
        c.transport.router.active ≡ local_target
        → (c.transport.router.active ≢ local_target)
          ⊎ (within now edge_containment c.last_transition_at ≡ true)
        → within now edge_containment c.last_transition_at ≡ true
    early home (inl away) = absurd (away home)
    early home (inr e) = e

crossed-code :
    (side : Edge) (x : F32) → crossed_edge (edge_code (entry_for side x).edge) ≡ edge_code side
unfolding crossed_edge entry_for
crossed-code side x = ground arith

-- A crossing outside the window gives control to the first connected peer in the order of the ids:
-- the answer is the transition's id, the state names the peer, and the router keeps the edge that
-- was crossed, from which it will push the pointer back on the return.
pub switch_edge_crosses :
    (id now : ℕ) (side : Edge) (x : F32) (c : Daemon) (peer : PeerId)
    → IsReady c
    → c.transport.router.active ≡ local_target
    → within now edge_containment c.last_transition_at ≡ false
    → first_connected (listed c.transport.router c.transport.rtt) ≡ some peer
    → let (c', answer) = switch_edge prompt_adapter id now side x c in
      (answer ≡ ok id)
      × (c'.transport.router.active ≡ peer)
      × (c'.transport.router.return_edge ≡ some (edge_code side))
      × (c'.state ≡ remote peer id)
      × (c'.last_transition_at ≡ some now)
unfolding cross_edge switch_locked activate_locked
switch_edge_crosses id now side x c peer v home late first =
    rw (after_sync id now side x c (synced_at_home c v home)) (
      ground (
        arith,
        crossed-code side x,
        send-crosses c.transport peer
            (edge_code (entry_for side x).edge, (entry_for side x).normalized_position) v.sound
            (first_connected-up c.transport.router c.transport.rtt peer first),
      ))
