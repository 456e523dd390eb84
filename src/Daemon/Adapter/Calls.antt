-- ===== src/Daemon/Adapter/Calls.antt =====
-- crates/nexus-daemon/src/transport.rs: the calls of the adapter, for a router between two calls.
use nexus_kvm.Base.{String, ◌≡◌, refl, true, Option, none, some, ok, arith}
use nexus_kvm.Router.{local_target, is_connected, alloc_transition, Warp, drain_held}
use nexus_kvm.Router.Switch.{
  prepare, take_warp, apply_switch, apply_local, switch_local_from_peer, crossed_edge,
}
use nexus_kvm.Router.Cycle.{switch_next_ok}
use nexus_kvm.Router.Keys.{release_all}
use nexus_kvm.Router.Commands.{
  Command, prepares, activates, locals, locals_from_peer, releases, nexts, apply, warp_of,
}
use nexus_kvm.Router.Invariant.{Inv, apply-Inv}
use nexus_kvm.Daemon.Adapter.{Host, send}

pub send-Inv : (c : Command) (h : Host) → Inv h.router → Inv (send c h).0.router
unfolding send
send-Inv c h v = apply-Inv c h.router v

-- A return to this machine always succeeds.
pub send-locals :
    (h : Host)
    → Inv h.router
    → ((send locals h).1 ≡ ok tt) × ((send locals h).0.router.active ≡ local_target)
unfolding send apply apply_local alloc_transition
send-locals h v = ground (arith, v.idle)

-- `prepare` and `release_all` leave the target.
pub send-prepares :
    (h : Host) (id : String) (w : Option Warp)
    → (send (prepares id w) h).0.router.active ≡ h.router.active
unfolding send apply prepare
send-prepares h id w = ground arith

pub send-releases :
    (h : Host) (peer : Option String) → (send (releases peer) h).0.router.active ≡ h.router.active
unfolding send apply release_all
send-releases h none = refl
send-releases h (some id) = ground arith

-- A switch that is answered with success has moved control to the peer.
pub send-activates :
    (h : Host) (id : String)
    → (send (activates id) h).1 ≡ ok tt
    → (send (activates id) h).0.router.active ≡ id
unfolding send apply warp_of take_warp apply_switch alloc_transition
send-activates h id e = ground arith

-- The crossing into a connected peer: `prepare`, then `activate`.
pub send-crosses :
    (h : Host) (id : String) (w : Warp)
    → Inv h.router
    → is_connected h.router.peers id ≡ true
    → let (h', prepared) = send (prepares id (some w)) h in
      let (h'', activated) = send (activates id) h' in
      (prepared ≡ ok tt)
      × (activated ≡ ok tt)
      × (h''.router.active ≡ id)
      × (h''.router.return_edge ≡ some (crossed_edge w.0))
unfolding send apply warp_of take_warp apply_switch prepare alloc_transition
send-crosses h id w v up = ground (arith, v.idle)

-- The router answers a request of the peer with success, whether control moves or not.
pub send-locals_from_peer : (h : Host) → Inv h.router → (send locals_from_peer h).1 ≡ ok tt
unfolding send apply switch_local_from_peer apply_local alloc_transition
send-locals_from_peer h v = ground (arith, v.idle)

-- The shortcut always succeeds.
pub send-nexts : (h : Host) → Inv h.router → (send nexts h).1 ≡ ok tt
unfolding send apply
send-nexts h v = let (t, done) = switch_next_ok (drain_held h.router).0 v.idle in rw done
