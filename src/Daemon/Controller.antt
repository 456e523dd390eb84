-- ===== src/Daemon/Controller.antt =====
-- crates/nexus-daemon/src/controller.rs: the controller over any transport. A method takes the
-- controller and returns it beside its result. The clock's milliseconds and a fresh transition id
-- are arguments; no time passes within a call, and the mutex makes the calls one after the other.
pub mod Methods
pub mod Truth
pub mod Calls
pub mod Peers
pub mod Crossings
pub mod Requests
use nexus_kvm.Base.{
  ℕ, ◌-◌, ◌+◌, String, ◌≡◌, refl, ite, Bool, true, false, not, ◌&&◌, ◌||◌, Option, none, some, List,
  [], ◌∷◌, map, leb, ltb, if◌then◌else◌, holds, is_ok, Result, ok, err, str_dec, find_if,
}
use nexus_kvm.Base.Dict.{lookup, tree_insert}
use nexus_kvm.Base.Float.{F32}
use nexus_kvm.Router.{local_target}
use nexus_kvm.Common.Model.{
  PeerId, Peer, PeerStatus, Edge, EntryPoint, RuntimeState, local, preparing_remote, remote,
  returning_local, recovering, stopped, AppStatus,
}
use nexus_kvm.Common.Geometry.{entry_for}
use nexus_kvm.Daemon.Transport.{
  DaemonError, no_peer_for_edge, no_peer_to_switch, unavailable, in_progress, Answer,
  InputTransport,
}

abbrev pub agent_ttl : ℕ
agent_ttl = 5000

abbrev pub edge_containment : ℕ
edge_containment = 750

-- `Uuid::nil()`
abbrev pub nil_id : ℕ
nil_id = 0

pub record Controller (W : Type 0) : Type 0 where
  pub transport : W
  pub state : RuntimeState
  pub active_target : PeerId
  pub peers : List (PeerId × Peer)
  pub last_heartbeat : Option ℕ
  pub portal_available : Bool
  pub last_transition_at : Option ℕ

unfoldable pub new_controller : {W : Type 0} → W → Controller W
new_controller t = record {
  transport = t;
  state = local;
  active_target = local_target;
  peers = [];
  last_heartbeat = none;
  portal_available = false;
  last_transition_at = none;
}

unfoldable pub status_connected : Peer → Bool
status_connected p = elim p.status [ PeerStatus.connected ↦ true | _ ↦ false ]

unfoldable pub in_transition : RuntimeState → Bool
in_transition (preparing_remote peer id) = true
in_transition (returning_local id) = true
in_transition (recovering reason) = true
in_transition _ = false

unfoldable pub was_returning : RuntimeState → Bool
was_returning (returning_local id) = true
was_returning (recovering reason) = true
was_returning _ = false

unfoldable pub state_for_active : PeerId → RuntimeState
state_for_active active = ite (str_dec active local_target) local (remote active nil_id)

-- The `match` of `heal_transition_locked`, its last two arms included.
unfoldable pub healed : PeerId → RuntimeState → Option RuntimeState
unfolding state_for_active
healed active (returning_local id) = some local
healed active (recovering reason) = some local
healed active (preparing_remote peer id) =
    ite (str_dec active peer) (some (remote peer id))
      (ite (str_dec active local_target) (some local) none)
healed active (remote peer id) =
    if holds (str_dec active local_target) || not (holds (str_dec active peer))
    then some (state_for_active active)
    else some (state_for_active active)
healed active _ = some (state_for_active active)

unfoldable pub heal_transition : {W : Type 0} → PeerId → Controller W → Controller W
heal_transition active c = elim (healed active c.state) [
  | none ↦ c
  | some s ↦ record c { state = s }
]

-- `peers.into_iter().map(|p| (p.id.clone(), p)).collect()`
unfoldable pub collect : List (PeerId × Peer) → List Peer → List (PeerId × Peer)
collect m [] = m
collect m (p ∷ ps) = collect (tree_insert p.id p m) ps

-- `peers.get(id).map(|p| p.status == Connected).unwrap_or(false)`
unfoldable pub is_alive : List (PeerId × Peer) → PeerId → Bool
unfolding status_connected
is_alive peers id = elim (lookup str_dec id peers) [ none ↦ false | some p ↦ status_connected p ]

unfoldable pub heartbeat : {W : Type 0} → ℕ → Bool → Controller W → Controller W
heartbeat now portal c = record c { last_heartbeat = some now; portal_available = portal }

abbrev pub mark_transition : {W : Type 0} → ℕ → Controller W → Controller W
mark_transition now c = record c { last_transition_at = some now }

-- The loop of `status` over the peers: a known round-trip time replaces the stored one.
unfoldable pub with_latencies : List (PeerId × ℕ) → List (PeerId × Peer) → List (PeerId × Peer)
with_latencies rtt [] = []
with_latencies rtt ((id, p) ∷ ps) =
    let rest = with_latencies rtt ps in
    elim (lookup str_dec id rtt) [
      | none ↦ (id, p) ∷ rest
      | some ms ↦ (id, record p { latency_ms = some ms }) ∷ rest
    ]

-- `t.elapsed() < bound`
abbrev pub within : ℕ → ℕ → Option ℕ → Bool
within now bound none = false
within now bound (some t) = ltb (now - t) bound
