-- ===== src/Router/Commands.antt =====
-- rkvm-master/rkvm-server/src/target.rs: the control commands, and the loop that applies them.
-- The `oneshot` reply of a command is a value beside the result of `apply`.
use mathlib.Core.Option
use nexus_kvm.Base.{
  String, ite, Option, none, List, [], ◌∷◌, if◌then◌else◌, is_ok, Result, ok, err, str_dec,
}
use nexus_kvm.Router.{Router, Key, Snapshot, TargetError, TransitionId, Warp, drain_held, snapshot}
use nexus_kvm.Router.Switch.{
  prepare, take_warp, switch_to, switch_local, switch_local_from_peer, switch_next, finish_chord,
}
use nexus_kvm.Router.Keys.{release_all}

pub data Command : Type 0 where
  prepares : String → Option Warp → Command
  activates : String → Command
  locals : Command
  locals_from_peer : Command
  releases : Option String → Command
  nexts : Command

pub data Reply : Type 0 where
  prepared : Result (Unit {0}) TargetError → Reply
  moved : Result TransitionId TargetError → Reply
  released : Result (List (Key × String)) TargetError → Reply

-- `Applied`: the keys to release, and the target of a pointer warp with its edge and position.
pub record Applied : Type 0 where
  pub keys : List (Key × String)
  pub warp : Option (String × Warp)

pub record Outcome : Type 0 where
  pub router : Router
  pub applied : Applied
  pub reply : Reply

-- `result.map(|_| take_warp ..)`: the warp is taken only after a switch that succeeded.
unfoldable pub warp_of : Router × Result TransitionId TargetError → Router × Option (String × Warp)
unfolding take_warp
warp_of (r, ok t) = let (r', w) = take_warp r in (r', Option.map (λ x. (r'.active, x)) w)
warp_of (r, err e) = (r, none)

unfoldable pub apply : Command → Router → Outcome
apply (prepares id warp) r =
    let (r', result) = prepare r id warp in
    record { router = r'; applied = record { keys = []; warp = none }; reply = prepared result }
apply (activates id) r =
    let (r', keys) = drain_held r in
    let moving = switch_to r' id in
    let (r'', warp) = warp_of moving in
    record { router = r''; applied = record { keys = keys; warp = warp }; reply = moved moving.1 }
apply locals r =
    let (r', keys) = drain_held r in
    let (r'', result) = switch_local r' in
    record { router = r''; applied = record { keys = keys; warp = none }; reply = moved result }
apply locals_from_peer r =
    let (r', result) = switch_local_from_peer r in
    let (r'', keys) = ite (str_dec r'.active r.active) (r', []) (drain_held r') in
    record { router = r''; applied = record { keys = keys; warp = none }; reply = moved result }
apply (releases peer) r =
    let (r', result) = release_all r peer in
    let keys : List (Key × String) = elim result [ ok ks ↦ ks | err e ↦ [] ] in
    record { router = r'; applied = record { keys = keys; warp = none }; reply = released result }
apply nexts r =
    let (r', keys) = drain_held r in
    let moving = switch_next r' in
    let (r'', warp) = warp_of moving in
    let r''' = if is_ok moving.1 then finish_chord r'' else r'' in
    record { router = r'''; applied = record { keys = keys; warp = warp }; reply = moved moving.1 }

-- The rounds of `drive_with` after the first `publish`: each command is applied, and the snapshot
-- published.
unfoldable pub drive_from : Router → List Command → Router × List Snapshot
unfolding apply snapshot
drive_from r [] = (r, [])
drive_from r (c ∷ cs) =
    let r' = (apply c r).router in
    let (last, published) = drive_from r' cs in (last, snapshot r' ∷ published)

unfoldable pub drive_with : Router → List Command → Router × List Snapshot
unfolding drive_from
drive_with r cs = let (last, published) = drive_from r cs in (last, snapshot r ∷ published)
