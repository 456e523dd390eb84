-- ===== src/Daemon/Adapter/Handle.antt =====
-- crates/nexus-daemon/src/transport.rs: `RkvmAdapter`, over `TargetHandle` of
-- rkvm-master/rkvm-server/src/target.rs. A call sends a command to the control loop and waits for its
-- reply. What is read is the snapshot that the loop published last. No other command comes between.
use nexus_kvm.Base.{ℕ, Bool, true, if◌then◌else◌, List, [], ◌∷◌, map, Result, ok, err}
use nexus_kvm.Router.{Router, Snapshot, closed, snapshot}
use nexus_kvm.Router.Commands.{
  Command, prepares, activates, locals, locals_from_peer, releases, nexts, apply,
}
use nexus_kvm.Common.Model.{PeerId, Peer}
use nexus_kvm.Daemon.Transport.{DaemonError, transport_error, Answer, InputTransport}
use nexus_kvm.Daemon.Adapter.{Host, answer, send, peer_of, warp_for}

-- `calls` are the commands that the loop still answers before it ends, each with whether the snapshot
-- behind it is published before the next read.
pub record Handle : Type 0 where
  pub router : Router
  pub rtt : List (PeerId × ℕ)
  pub shown : Snapshot
  pub calls : List Bool

-- A method of `TargetHandle`: a loop that has ended takes no command, or drops its reply.
unfoldable pub answered : Command → List Bool → Handle → Handle × Answer
answered c [] h = (h, err (transport_error closed))
answered c (in_time ∷ calls) h =
    let o = apply c h.router in
    (
      record h {
        router = o.router;
        shown = if in_time then snapshot o.router else h.shown;
        calls = calls;
      },
      answer o.reply,
    )

unfoldable pub request : Command → Handle → Handle × Answer
unfolding answered
request c h = answered c h.calls h

unfoldable pub shown_peers : Handle → Result (List Peer) DaemonError
shown_peers h = ok (map (peer_of h.rtt) h.shown.peers)

abbrev pub rkvm_adapter : InputTransport
rkvm_adapter = record {
  World = Handle;
  peers = shown_peers;
  active_target = λ h. h.shown.active_target;
  latencies = λ h. h.rtt;
  prepare = λ h peer entry. request (prepares peer (warp_for entry)) h;
  activate = λ h peer. request (activates peer) h;
  next = λ h. request nexts h;
  activate_local = λ h. request locals h;
  local_from_peer = λ h. request locals_from_peer h;
  release_all = λ h peer. request (releases peer) h;
}

-- A loop whose snapshot is up to date, and which answers these commands in time and then ends.
abbrev pub until : List Command → Host → Handle
until commands h = record {
  router = h.router;
  rtt = h.rtt;
  shown = snapshot h.router;
  calls = map (λ c. true) commands;
}

-- Commands one after another, with their answers.
unfoldable pub requests : List Command → Handle → Handle × List Answer
unfolding request
requests [] h = (h, [])
requests (c ∷ commands) h =
    let r = request c h in let later = requests commands r.0 in (later.0, r.1 ∷ later.1)

unfoldable pub sends : List Command → Host → Host × List Answer
sends [] h = (h, [])
sends (c ∷ commands) h =
    let r = send c h in let later = sends commands r.0 in (later.0, r.1 ∷ later.1)

-- The answers of a loop that has ended.
abbrev pub refusals : List Command → List Answer
refusals [] = []
refusals (c ∷ commands) = err (transport_error closed) ∷ refusals commands
