-- ===== src/Daemon/Ipc.antt =====
-- crates/nexus-common/src/ipc.rs and crates/nexus-daemon/src/ipc_server.rs: the requests on the
-- control socket. The JSON code is a library: it is the record `Json`. The error texts of the daemon
-- are the values of `ResponseError`.
pub mod Sessions
pub mod Replies
use nexus_kvm.Base.{
  ℕ, zero, suc, String, Bool, true, false, not, Option, none, some, List, [], ◌∷◌, ◌++◌, ltb, ◌==◌,
  if◌then◌else◌, Result, ok, err, is_empty, length,
}
use nexus_kvm.Base.Float.{F32}
use nexus_kvm.Common.Model.{PeerId, Edge, left, EntryPoint, AppStatus}
use nexus_kvm.Common.Auth.{Bytes, Crypto, token_eq}
use nexus_kvm.Daemon.Transport.{DaemonError, InputTransport}
use nexus_kvm.Daemon.Controller.{Controller, heartbeat}
use nexus_kvm.Daemon.Controller.Methods.{
  Moved, status, switch_edge, switch_to, next, take_local, local_from_peer, release_all,
}

pub data ControlCommand : Type 0 where
  status_command peers_command next_command local_command : ControlCommand
  peer_local_command release_all_command shutdown_command : ControlCommand
  switch_command : PeerId → Option EntryPoint → ControlCommand
  switch_edge_command : Edge → F32 → ControlCommand
  agent_heartbeat : Bool → ControlCommand

pub record ControlRequest : Type 0 where
  pub id : String
  pub token : Option Bytes
  pub command : ControlCommand

pub data ResponseError : Type 0 where
  daemon_error : DaemonError → ResponseError
  unreadable : String → ResponseError
  unauthorized shutdown_disabled : ResponseError

-- `succeeded` is the field `ok`.
pub record ControlResponse : Type 0 where
  pub id : String
  pub succeeded : Bool
  pub error : Option ResponseError
  pub status : Option AppStatus
  pub transition_id : Option ℕ

-- `ControlResponse::ok`
unfoldable pub ok_response : String → Option AppStatus → ControlResponse
ok_response id s = record {
  id = id;
  succeeded = true;
  error = none;
  status = s;
  transition_id = none;
}

-- `ControlResponse::error`
unfoldable pub error_response : String → ResponseError → ControlResponse
error_response id problem = record {
  id = id;
  succeeded = false;
  error = some problem;
  status = none;
  transition_id = none;
}

abbrev pub default_entry : EntryPoint
default_entry = record {
  edge = left;
  normalized_position = record { bits = 0x3f000000 };
  inset_px = 6;
}

unfoldable pub entry_or : Option EntryPoint → EntryPoint
entry_or none = default_entry
entry_or (some entry) = entry

-- `from_utf8` and `serde_json::from_str`.
pub record Json : Type 0 where
  pub is_utf8 : Bytes → Bool
  pub from_str : Bytes → Result ControlRequest String

-- What a round of the loop meets beside its line: a fresh transition id, the time, and whether the
-- reply is written.
pub record Moment : Type 0 where
  pub fresh : ℕ
  pub now : ℕ
  pub writes : Bool

-- `read_until(b'\n')` on a reader that is limited: the line with its end, and the rest.
unfoldable pub read_until : ℕ → Bytes → Bytes × Bytes
read_until zero input = ([], input)
read_until (suc limit) [] = ([], [])
read_until (suc limit) (b ∷ input) =
    let (line, rest) = read_until limit input in
    if b == 10 then (b ∷ [], input) else (b ∷ line, rest)

abbrev pub line_limit : ℕ
line_limit = 65536

unfoldable pub with_reply :
    {W : Type 0}
    → ControlResponse
    → Option (W × List ControlResponse)
    → Option (W × List ControlResponse)
with_reply reply none = none
with_reply reply (some (c, replies)) = some (c, reply ∷ replies)

module _ (t : InputTransport) where
  -- The answer with the status after the command.
  unfoldable pub with_status :
      ℕ → String → Option ℕ → Controller t.World → Controller t.World × ControlResponse
  unfolding ok_response
  with_status now id moved c =
      let (c', s) = status t now c in
      (c', record (ok_response id (some s)) { transition_id = moved })

  -- The arms of a command that moves control.
  unfoldable pub moved_response :
      ℕ → String → Controller t.World × Moved → Controller t.World × ControlResponse
  unfolding with_status error_response
  moved_response now id (c, ok transition) = with_status now id (some transition) c
  moved_response now id (c, err problem) = (c, error_response id (daemon_error problem))

  unfoldable pub released_response :
      ℕ → String → Controller t.World × Moved → Controller t.World × ControlResponse
  unfolding with_status error_response
  released_response now id (c, ok transition) = with_status now id none c
  released_response now id (c, err problem) = (c, error_response id (daemon_error problem))

  -- The `match` on the command.
  unfoldable pub dispatch :
      Moment → String → ControlCommand → Controller t.World → Controller t.World × ControlResponse
  unfolding moved_response released_response entry_or
  dispatch m id status_command c = with_status m.now id none c
  dispatch m id peers_command c = with_status m.now id none c
  dispatch m id (switch_command peer entry) c =
      moved_response m.now id (switch_to t m.fresh m.now peer (entry_or entry) c)
  dispatch m id (switch_edge_command side position) c =
      moved_response m.now id (switch_edge t m.fresh m.now side position c)
  dispatch m id next_command c = moved_response m.now id (next t m.fresh m.now c)
  dispatch m id local_command c = moved_response m.now id (take_local t m.fresh m.now c)
  dispatch m id peer_local_command c = moved_response m.now id (local_from_peer t m.fresh m.now c)
  dispatch m id release_all_command c = released_response m.now id (release_all t m.now c)
  dispatch m id (agent_heartbeat portal) c = with_status m.now id none (heartbeat m.now portal c)
  dispatch m id shutdown_command c = (c, error_response id shutdown_disabled)

  module _ (x : Crypto) (json : Json) (expected : Bytes) where
    unfoldable pub answer :
        Moment
        → Result ControlRequest String
        → Controller t.World
        → Controller t.World × ControlResponse
    unfolding dispatch
    answer m (err problem) c = (c, error_response "unknown" (unreadable problem))
    answer m (ok req) c =
        if not (token_eq x expected req.token)
        then (c, error_response req.id unauthorized)
        else dispatch m req.id req.command c

    -- The loop of `handle`, with the replies that it wrote; `none` if the fuel is used up. The
    -- `ℕ`s are the fuel and the number of the round.
    unfoldable pub handle :
        ℕ
        → ℕ
        → (ℕ → Moment)
        → Bytes
        → Controller t.World
        → Option (Controller t.World × List ControlResponse)
    unfolding read_until answer with_reply
    handle zero n moments input c = none
    handle (suc fuel) n moments input c =
        let (line, rest) = read_until (suc line_limit) input in
        let (c', reply) = answer (moments n) (json.from_str line) c in
        let later = handle fuel (suc n) moments rest c' in
        if is_empty line
        then some (c, [])
        else if ltb line_limit (length line)
        then some (c, [])
        else if not (json.is_utf8 line)
        then some (c, [])
        else if not (moments n).writes
        then some (c', [])
        else with_reply reply later
