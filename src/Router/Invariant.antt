-- ===== src/Router/Invariant.antt =====
-- rkvm-master/rkvm-server/src/target.rs: the invariant of a router between two calls.
use nexus_kvm.Base.{
  ℕ, ◌^◌, ◌<◌, String, ◌≡◌, refl, sym, subst, ◌∙◌, ◌≢◌, ite_intro, if◌then◌else◌, is_ok, ◌⊎◌, inl,
  Bool, true, false, Option, none, some, List, arith, Result, ok, err, str_dec,
}
use nexus_kvm.Base.Dict.{insert, remove, adjust, lookup-insert, lookup-remove, lookup-adjust}
use nexus_kvm.Base.Int.{ℤ}
use nexus_kvm.Router.{
  Router, TransitionId, drain_held, Key, PeerEntry, TargetError, Warp, local_target, new,
  insert_peer, remove_peer, mark_disconnected, take_local_warp, note_remote_motion, is_connected,
  alloc_transition,
}
use nexus_kvm.Router.Switch.{
  prepare, take_warp, apply_switch, apply_local, switch_local_from_peer, switch_next, finish_chord,
  switch_to, crossed_edge, next_target,
}
use nexus_kvm.Router.Keys.{release_all}
use nexus_kvm.Router.Commands.{
  Command, prepares, activates, locals, locals_from_peer, releases, nexts, apply, warp_of,
}

abbrev pub EdgeCode : Option ℕ → Type 0
EdgeCode none = Unit {0}
EdgeCode (some e) = e < 4

-- The active target is this machine or a connected peer; no transition is half done; edges are
-- edges; the counter fits in 64 bits.
pub record Inv (r : Router) : Type 0 where
  pub reachable : (r.active ≡ local_target) ⊎ (is_connected r.peers r.active ≡ true)
  pub idle : r.busy ≡ false
  pub edge : EdgeCode r.return_edge
  pub warp_edge : EdgeCode r.pending_local_warp
  pub counter : r.next_transition < 2 ^ 64

pub new-Inv : Inv new
unfolding new
new-Inv = record {
  reachable = inl refl;
  idle = refl;
  edge = tt;
  warp_edge = tt;
  counter = omega arith;
}

connected-insert :
    (q k : String) (p : PeerEntry) (m : List (String × PeerEntry))
    → p.connected ≡ true
    → is_connected m q ≡ true
    → is_connected (insert str_dec k p m) q ≡ true
unfolding is_connected
connected-insert q k p m h c = ground (arith, lookup-insert str_dec q k p m)

connected-remove :
    (q k : String) (m : List (String × PeerEntry))
    → q ≢ k
    → is_connected m q ≡ true
    → is_connected (remove str_dec k m) q ≡ true
unfolding is_connected
connected-remove q k m h c = ground (arith, lookup-remove str_dec q k m)

connected-adjust :
    (f : PeerEntry → PeerEntry) (q k : String) (m : List (String × PeerEntry))
    → q ≢ k
    → is_connected m q ≡ true
    → is_connected (adjust str_dec f k m) q ≡ true
unfolding is_connected
connected-adjust f q k m h c = ground (arith, lookup-adjust str_dec f q k m)

pub insert_peer-Inv : (r : Router) (id address : String) → Inv r → Inv (insert_peer r id address)
unfolding insert_peer
insert_peer-Inv r id address v = ground (
  arith,
  connected-insert r.active id (record { address = address; connected = true }) r.peers refl,
)

pub remove_peer-Inv : (r : Router) (id : String) → Inv r → Inv (remove_peer r id).0
unfolding remove_peer
remove_peer-Inv r id v = ground (arith, connected-remove r.active id r.peers)

pub mark_disconnected-Inv : (r : Router) (id : String) → Inv r → Inv (mark_disconnected r id).0
unfolding mark_disconnected
mark_disconnected-Inv r id v = ground (
  arith,
  connected-adjust (λ (p : PeerEntry). record p { connected = false }) r.active id r.peers,
)

pub take_local_warp-Inv : (r : Router) → Inv r → Inv (take_local_warp r).0
unfolding take_local_warp
take_local_warp-Inv r v = ground arith

pub note_remote_motion-Inv : (r : Router) (dx dy : ℤ) → Inv r → Inv (note_remote_motion r dx dy)
unfolding note_remote_motion
note_remote_motion-Inv r dx dy v = ground arith

crossed_edge_bound : (e : ℕ) → crossed_edge e < 4
unfolding crossed_edge
crossed_edge_bound e = ground arith

pub prepare-Inv : (r : Router) (id : String) (w : Option Warp) → Inv r → Inv (prepare r id w).0
unfolding prepare
prepare-Inv r id none v = ground arith
prepare-Inv r id (some w) v = ground (arith, crossed_edge_bound w.0)

pub apply_switch-Inv : (r : Router) (id : String) (b : Bool) → Inv r → Inv (apply_switch r id b).0
unfolding apply_switch
apply_switch-Inv r id b v = ground arith

pub apply_local-Inv : (r : Router) (b : Bool) → Inv r → Inv (apply_local r b).0
unfolding apply_local
apply_local-Inv r b v = ground arith

pub switch_local_from_peer-Inv : (r : Router) → Inv r → Inv (switch_local_from_peer r).0
unfolding switch_local_from_peer alloc_transition
switch_local_from_peer-Inv r v = ground (arith, apply_local-Inv r false v)

pub switch_next-Inv : (r : Router) → Inv r → Inv (switch_next r).0
unfolding switch_next
switch_next-Inv r v =
    ite_intro (λ (m : Router × Result TransitionId TargetError). Inv m.0)
      (str_dec (next_target r) local_target) (λ p. apply_local-Inv r true v)
      (λ p. apply_switch-Inv r (next_target r) true v)

-- The fields that the invariant reads are the same in both routers.
pub record Alike (r s : Router) : Type 0 where
  pub active : s.active ≡ r.active
  pub busy : s.busy ≡ r.busy
  pub peers : s.peers ≡ r.peers
  pub return_edge : s.return_edge ≡ r.return_edge
  pub pending_local_warp : s.pending_local_warp ≡ r.pending_local_warp
  pub next_transition : s.next_transition ≡ r.next_transition

pub Alike-Inv : {r s : Router} → Alike r s → Inv r → Inv s
Alike-Inv a v = record {
  reachable = rw (a.active, a.peers) v.reachable;
  idle = a.busy ∙ v.idle;
  edge = subst EdgeCode (sym a.return_edge) v.edge;
  warp_edge = subst EdgeCode (sym a.pending_local_warp) v.warp_edge;
  counter = rw a.next_transition v.counter;
}

release_all-Alike : (r : Router) (peer : Option String) → Alike r (release_all r peer).0
unfolding release_all
release_all-Alike r none = ground arith
release_all-Alike r (some id) = ground arith

warp_of-Alike : (m : Router × Result TransitionId TargetError) → Alike m.0 (warp_of m).0
unfolding warp_of take_warp
warp_of-Alike (r, ok t) = ground arith
warp_of-Alike (r, err e) = ground arith

finish-Alike :
    {s : Router} (m : Router × Result TransitionId TargetError)
    → Alike s (if is_ok m.1 then finish_chord s else s)
unfolding finish_chord
finish-Alike m = ground arith

-- A drain empties the keys that are held and changes nothing else that the invariant reads.
drained-Inv : (r : Router) → Inv r → Inv (drain_held r).0
drained-Inv r v = ground arith

-- Every control command keeps the invariant, whether it succeeds or not.
pub apply-Inv : (c : Command) (r : Router) → Inv r → Inv (apply c r).router
unfolding apply
apply-Inv (prepares id w) r v = prepare-Inv r id w v
apply-Inv (activates id) r v =
    Alike-Inv (warp_of-Alike (switch_to (drain_held r).0 id))
      (apply_switch-Inv _ id false (drained-Inv r v))
apply-Inv locals r v = apply_local-Inv _ false (drained-Inv r v)
apply-Inv locals_from_peer r v =
    ite_intro (λ (m : Router × List (Key × String)). Inv m.0)
      (str_dec (switch_local_from_peer r).0.active r.active) (λ p. switch_local_from_peer-Inv r v)
      (λ p. drained-Inv _ (switch_local_from_peer-Inv r v))
apply-Inv (releases peer) r v = Alike-Inv (release_all-Alike r peer) v
apply-Inv nexts r v =
    let moving = switch_next (drain_held r).0 in
    Alike-Inv (finish-Alike moving)
      (Alike-Inv (warp_of-Alike moving) (switch_next-Inv _ (drained-Inv r v)))
