-- ===== src/Daemon/Controller/Truth.antt =====
-- crates/nexus-daemon/src/controller.rs: the state of the controller beside the target of the router,
-- in `sync_target` and `switch_locked`.
use nexus_kvm.Base.{
  ℕ, ◌≡◌, refl, inl, inr, Bool, false, none, some, arith, holds, ok, str_dec, Result-cases, [], map,
  if_intro, holds-true, ite_intro,
}
use nexus_kvm.Router.{local_target, snapshot}
use nexus_kvm.Router.Invariant.{Inv}
use nexus_kvm.Router.Commands.{prepares, activates, locals, releases}
use nexus_kvm.Common.Model.{
  PeerId, EntryPoint, RuntimeState, local, preparing_remote, remote, returning_local, recovering,
}
use nexus_kvm.Daemon.Adapter.{Host, send, prompt_adapter, warp_for, adapter_peers, peer_of}
use nexus_kvm.Daemon.Adapter.Calls.{send-Inv, send-locals, send-activates}
use nexus_kvm.Daemon.Controller.{
  Controller, in_transition, state_for_active, heal_transition, healed, collect, was_returning,
}
use nexus_kvm.Daemon.Controller.Methods.{
  settle_at, refresh_peers, ensure_local_transport, force_local, sync_target, activate_locked,
  switch_locked,
}

-- The daemon's controller, over the router.
abbrev pub Daemon : Type 0
Daemon = Controller Host

-- The state names the target: local, or remote with the peer that has control.
abbrev pub Agrees : RuntimeState → PeerId → Type 0
Agrees local active = active ≡ local_target
Agrees (remote peer id) active = active ≡ peer
Agrees _ active = ⊥

-- What holds after a call.
pub record IsTrue (c : Daemon) : Type 0 where
  pub sound : Inv c.transport.router
  pub agrees : Agrees c.state c.transport.router.active

-- What is needed before a call: the state may be out of date, but no call is half done.
pub record IsReady (c : Daemon) : Type 0 where
  pub sound : Inv c.transport.router
  pub settled : in_transition c.state ≡ false

pub state_for_active-Agrees : (active : PeerId) → Agrees (state_for_active active) active
unfolding state_for_active
state_for_active-Agrees active =
    ite_intro (λ s. Agrees s active) (str_dec active local_target) (λ p. p) (λ p. refl)

healed_settled :
    (active : PeerId) (s : RuntimeState)
    → in_transition s ≡ false
    → healed active s ≡ some (state_for_active active)
unfolding healed in_transition
healed_settled active (remote peer id) h = ground arith
healed_settled active (preparing_remote peer id) h = cc
healed_settled active (returning_local id) h = cc
healed_settled active (recovering reason) h = cc
healed_settled active s h = refl

-- Healing a settled state makes it agree with the target, and changes nothing else.
pub heal_transition-settled :
    (active : PeerId) (c : Daemon)
    → in_transition c.state ≡ false
    → heal_transition active c ≡ record c { state = state_for_active active }
unfolding heal_transition
heal_transition-settled active c h = rw (healed_settled active c.state h, heal_transition)

-- The adapter always lists its peers, and a refresh changes nothing but them.
pub refreshed :
    (c : Daemon)
    → ((refresh_peers prompt_adapter c).1 ≡ ok tt)
      × ((refresh_peers prompt_adapter c).0.transport ≡ c.transport)
      × ((refresh_peers prompt_adapter c).0.state ≡ c.state)
      × ((refresh_peers prompt_adapter c).0.active_target ≡ c.active_target)
      × ((refresh_peers prompt_adapter c).0.last_transition_at ≡ c.last_transition_at)
unfolding refresh_peers adapter_peers
refreshed c = (refl, refl, refl, refl, refl)

-- A controller that takes its state from the target.
abbrev pub at_target : Daemon → Daemon
at_target c = settle_at c.transport.router.active c

pub at_target-IsTrue : (c : Daemon) → Inv c.transport.router → IsTrue (at_target c)
at_target-IsTrue c v = record {
  sound = v;
  agrees = state_for_active-Agrees c.transport.router.active;
}

pub ensure_local_transport-IsTrue :
    (c : Daemon) → Inv c.transport.router → IsTrue (ensure_local_transport prompt_adapter c).0
unfolding ensure_local_transport
ensure_local_transport-IsTrue c v =
    let released = (send (releases none) c.transport).0 in
    let v' = send-Inv (releases none) c.transport v in
    let (done, home) = send-locals released v' in
    if_intro (λ (m : Daemon × Bool). IsTrue m.0)
      (holds (str_dec c.transport.router.active local_target))
      (λ e. record { sound = v; agrees = holds-true _ e })
      (λ e. rw done (record { sound = send-Inv locals released v'; agrees = home }))

force_local-IsTrue :
    (active : PeerId) (returning : Bool) (c : Daemon)
    → IsTrue c
    → IsTrue (force_local prompt_adapter active returning c)
unfolding force_local
force_local-IsTrue active returning c v =
    if_intro IsTrue _ (λ e. ensure_local_transport-IsTrue c v.sound) (λ e. v)

-- The controller after a synchronisation with the transport, before anything is forced.
abbrev pub synced : Daemon → Daemon
synced c = at_target (record c {
  peers = collect [] (map (peer_of c.transport.rtt) (snapshot c.transport.router).peers);
})

pub sync_target_form :
    (c : Daemon)
    → in_transition c.state ≡ false
    → sync_target prompt_adapter c ≡ (
      force_local prompt_adapter c.transport.router.active (was_returning c.state) (synced c),
      ok tt,
    )
unfolding sync_target refresh_peers adapter_peers
sync_target_form c h = rw (
    heal_transition-settled c.transport.router.active
      (record c { active_target = c.transport.router.active }) h)

-- The synchronisation with the transport succeeds, and makes the state agree with the target.
pub sync_target-IsTrue :
    (c : Daemon)
    → IsReady c
    → ((sync_target prompt_adapter c).1 ≡ ok tt) × IsTrue (sync_target prompt_adapter c).0
sync_target-IsTrue c v =
    rw (sync_target_form c v.settled)
      (refl, force_local-IsTrue _ _ (synced c) (at_target-IsTrue (synced c) v.sound))

activate_locked-IsTrue :
    (id now : ℕ) (peer : PeerId) (c : Daemon)
    → Inv c.transport.router
    → IsTrue (activate_locked prompt_adapter id now peer c).0
unfolding activate_locked
activate_locked-IsTrue id now peer c v =
    let w = (send (activates peer) c.transport).0 in
    let v' = send-Inv (activates peer) c.transport v in
    elim (Result-cases (send (activates peer) c.transport).1) [
      | inl (u, e) ↦
          rw (e, activate_locked)
            (record { sound = v'; agrees = send-activates c.transport peer e })
      | inr (x, e) ↦
          rw (e, activate_locked)
            (record { sound = send-Inv locals w v'; agrees = (send-locals w v').1 })
    ]

pub switch_locked-IsTrue :
    (id now : ℕ) (peer : PeerId) (entry : EntryPoint) (c : Daemon)
    → Inv c.transport.router
    → IsTrue (switch_locked prompt_adapter id now peer entry c).0
unfolding switch_locked
switch_locked-IsTrue id now peer entry c v =
    let preparing = prepares peer (warp_for entry) in
    let v' = send-Inv preparing c.transport v in
    elim (Result-cases (send preparing c.transport).1) [
      | inl (u, e) ↦ rw (e, switch_locked) (activate_locked-IsTrue id now peer _ v')
      | inr (x, e) ↦
          rw (e, switch_locked)
            (record {
              sound = v';
              agrees = state_for_active-Agrees (send preparing c.transport).0.router.active;
            })
    ]
