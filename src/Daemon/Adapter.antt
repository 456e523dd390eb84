-- ===== src/Daemon/Adapter.antt =====
-- A transport that the controller can be over, in terms of the router: a control loop that runs, answers
-- every command, and has published its snapshot whenever that is read. `RkvmAdapter` of
-- crates/nexus-daemon/src/transport.rs, which promises neither, is in Handle.
pub mod Calls
pub mod Handle
use nexus_kvm.Base.{
  ℕ, String, ◌≡◌, refl, Bool, true, false, if◌then◌else◌, Option, none, some, List, [], ◌∷◌, map,
  Result, ok, err, str_dec,
}
use nexus_kvm.Base.Dict.{lookup}
use nexus_kvm.Base.Float.{F32}
use nexus_kvm.Router.{Router, PeerSnapshot, TargetError, TransitionId, Key, Warp, snapshot}
use nexus_kvm.Router.Commands.{
  Command, prepares, activates, locals, locals_from_peer, releases, nexts, Reply, prepared, moved,
  released, apply,
}
use nexus_kvm.Common.Model.{PeerId, Peer, PeerStatus, Edge, left, right, top, bottom, EntryPoint}
use nexus_kvm.Daemon.Transport.{DaemonError, transport_error, Answer, InputTransport}

-- The router, and the registry of round-trip times.
pub record Host : Type 0 where
  pub router : Router
  pub rtt : List (PeerId × ℕ)

abbrev pub edge_code : Edge → ℕ
edge_code left = 0
edge_code right = 1
edge_code top = 2
edge_code bottom = 3

-- `map(|_| ()).map_err(|e| anyhow!(e))`
abbrev pub answer : Reply → Answer
answer (prepared (ok u)) = ok tt
answer (prepared (err e)) = err (transport_error e)
answer (moved (ok t)) = ok tt
answer (moved (err e)) = err (transport_error e)
answer (released (ok ks)) = ok tt
answer (released (err e)) = err (transport_error e)

unfoldable pub send : Command → Host → Host × Answer
send c h = let o = apply c h.router in (record h { router = o.router }, answer o.reply)

unfoldable pub peer_of : List (PeerId × ℕ) → PeerSnapshot → Peer
peer_of rtt p = record {
  id = p.id;
  name = p.id;
  address = p.address;
  status = if p.connected then PeerStatus.connected else PeerStatus.disconnected;
  latency_ms = lookup str_dec p.id rtt;
  protocol_version = 1;
}

unfoldable pub adapter_peers : Host → Result (List Peer) DaemonError
unfolding peer_of
adapter_peers h = ok (map (peer_of h.rtt) (snapshot h.router).peers)

abbrev pub warp_for : EntryPoint → Option Warp
warp_for entry = some (edge_code entry.edge, entry.normalized_position)

abbrev pub prompt_adapter : InputTransport
prompt_adapter = record {
  World = Host;
  peers = adapter_peers;
  active_target = λ h. h.router.active;
  latencies = λ h. h.rtt;
  prepare = λ h peer entry. send (prepares peer (warp_for entry)) h;
  activate = λ h peer. send (activates peer) h;
  next = λ h. send nexts h;
  activate_local = λ h. send locals h;
  local_from_peer = λ h. send locals_from_peer h;
  release_all = λ h peer. send (releases peer) h;
}
