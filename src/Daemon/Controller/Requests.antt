-- ===== src/Daemon/Controller/Requests.antt =====
-- crates/nexus-daemon/src/controller.rs: the requests that the daemon serves.
use nexus_kvm.Base.{ℕ, String, ◌≡◌, refl, some, ok}
use nexus_kvm.Base.Float.{F32}
use nexus_kvm.Router.{local_target}
use nexus_kvm.Router.Invariant.{Inv}
use nexus_kvm.Router.Commands.{locals}
use nexus_kvm.Common.Model.{PeerId, Edge, EntryPoint, local, returning_local}
use nexus_kvm.Daemon.Adapter.{send, prompt_adapter, adapter_peers}
use nexus_kvm.Daemon.Adapter.Calls.{send-locals}
use nexus_kvm.Daemon.Controller.{mark_transition}
use nexus_kvm.Daemon.Controller.Truth.{
  Daemon, Agrees, IsTrue, IsReady, at_target-IsTrue, heal_transition-settled,
  state_for_active-Agrees,
}
use nexus_kvm.Daemon.Controller.Methods.{
  Moved, settle_home, refresh_peers, status, switch_edge, switch_to, next, release_current,
  go_local, take_local, local_from_peer, recover, release_all,
}
use nexus_kvm.Daemon.Controller.Calls.{release_current-Inv}

-- The requests of `ControlCommand` that move control.
pub data Request : Type 0 where
  switches_edge : Edge → F32 → Request
  switches_to : PeerId → EntryPoint → Request
  cycles : Request
  returns : Request
  peer_returns : Request
  recovers : String → Request
  releases_all : Request

unfoldable pub perform : ℕ → ℕ → Request → Daemon → Daemon × Moved
perform id now (switches_edge side x) c = switch_edge prompt_adapter id now side x c
perform id now (switches_to peer entry) c = switch_to prompt_adapter id now peer entry c
perform id now cycles c = next prompt_adapter id now c
perform id now returns c = take_local prompt_adapter id now c
perform id now peer_returns c = local_from_peer prompt_adapter id now c
perform id now (recovers reason) c = recover prompt_adapter now reason c
perform id now releases_all c = release_all prompt_adapter now c

-- A return asked for by the peer does not look at the transport first if control is here already, so
-- it keeps the state as it was.
abbrev pub IsPrepared : Request → Daemon → Type 0
IsPrepared peer_returns c = IsTrue c
IsPrepared _ c = IsReady c

-- The status that is reported names the router's target, with a state that agrees with it, even if
-- the target changed since the last request; it leaves the router alone.
pub status-IsTrue :
    (now : ℕ) (c : Daemon)
    → IsReady c
    → let (c', s) = status prompt_adapter now c in
      (s.active_target ≡ c.transport.router.active)
      × Agrees s.state s.active_target
      × IsTrue c'
      × (c'.transport ≡ c.transport)
unfolding status
status-IsTrue now c v =
    rw
      (heal_transition-settled c.transport.router.active
        (record c { active_target = c.transport.router.active }) v.settled)
      (refl, state_for_active-Agrees c.transport.router.active, at_target-IsTrue c v.sound, refl)

go_local_form :
    (id now : ℕ) (arrive : Daemon → Daemon) (c : Daemon)
    → Inv c.transport.router
    → go_local prompt_adapter id now arrive c ≡ (
      arrive (
          settle_home (mark_transition now (record c { transport = (send locals c.transport).0 }))),
      ok id,
    )
unfolding go_local
go_local_form id now arrive c v = rw ((send-locals c.transport v).0, go_local)

-- The user can always take control back: `local` succeeds from every state, and leaves input on this
-- machine, the state local, and the time of the transition noted.
pub take_local_arrives :
    (id now : ℕ) (c : Daemon)
    → Inv c.transport.router
    → let (c', answer) = take_local prompt_adapter id now c in
      (answer ≡ ok id)
      × (c'.transport.router.active ≡ local_target)
      × (c'.state ≡ local)
      × (c'.active_target ≡ local_target)
      × (c'.last_transition_at ≡ some now)
unfolding take_local refresh_peers adapter_peers
take_local_arrives id now c v =
    let w = release_current prompt_adapter c.transport.router.active c.transport in
    let v' = release_current-Inv c.transport.router.active c.transport v in
    rw
      (go_local_form id now (λ d. (refresh_peers prompt_adapter d).0)
        (record c { transport = w; state = returning_local id }) v')
      (refl, (send-locals w v').1, refl, refl, refl)
