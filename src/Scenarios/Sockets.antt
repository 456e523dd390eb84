-- ===== src/Scenarios/Sockets.antt =====
-- Runs of the daemon's control socket and of the edge engine.
use nexus_kvm.Base.{◌≡◌, refl, subst, true, false, none, some, ok, err, [], ◌∷◌, arith, ℕ, str_dec}
use nexus_kvm.Base.Float.{f32_le}
use nexus_kvm.Common.Model.{right, edge_dec}
use nexus_kvm.Common.Layouts.{two_node_layout}
use nexus_kvm.Common.Geometry.{barrier_for, entry_for}
use nexus_kvm.Common.Auth.{Bytes, token_eq}
use nexus_kvm.Daemon.Adapter.{prompt_adapter}
use nexus_kvm.Daemon.Ipc.{ControlRequest, local_command, switch_command, Json, Moment, handle}
use nexus_kvm.Daemon.Ipc.Sessions.{Lines-all, Ends}
use nexus_kvm.Daemon.Ipc.Replies.{LacksToken, handle_refused}
use nexus_kvm.Agent.Engine.{
  EdgeEvent, Meets, new_engine, steps, step, on_event, cross, is_armed, command_for, steps_failed,
}
use nexus_kvm.Scenarios.Shared.{plain, secret, desk_layout, half}
use nexus_kvm.Scenarios.Daemons.{resting}

-- The request that every line is read as, with the token and without it.
abbrev request : ControlRequest
request = record { id = "1"; token = some secret; command = local_command }

abbrev guest : ControlRequest
guest = record { id = "2"; token = none; command = local_command }

abbrev trusting : Json
trusting = record { is_utf8 = λ b. true; from_str = λ b. ok request }

abbrev wary : Json
wary = record { is_utf8 = λ b. true; from_str = λ b. ok guest }

abbrev moments : ℕ → Moment
moments n = record { fresh = n; now = 2000; writes = true }

abbrev two_lines : Bytes
two_lines = 123 ∷ 10 ∷ 125 ∷ 10 ∷ []

guest_refused :
    (line : Bytes) (req : ControlRequest)
    → wary.from_str line ≡ ok req
    → token_eq plain secret req.token ≡ false
unfolding token_eq
guest_refused line req e =
    let same : guest ≡ req = cc in subst (λ r. token_eq plain secret r.token ≡ false) same refl

handle_refused_example :
    Ends prompt_adapter plain wary secret
      (λ c. c ≡ resting)
      (λ reply. reply.succeeded ≡ false)
      (handle prompt_adapter plain wary secret 5 0 moments two_lines resting)
handle_refused_example =
    handle_refused plain wary secret prompt_adapter resting 5 0 moments two_lines
      (Lines-all (LacksToken plain wary secret prompt_adapter resting) guest_refused 5 two_lines)
      (omega arith)

-- The pointer crosses to the desk while the daemon's socket is gone.
abbrev crossing : EdgeEvent
crossing = record {
  display_id = "main";
  edge = right;
  normalized_position = half;
  any_button_pressed = false;
}

abbrev unanswered : Meets
unanswered = record { now = 0; event = ok crossing; reply = err "timed out"; after = 3000 }

abbrev later : Meets
later = record { now = 9000; event = ok crossing; reply = err "timed out"; after = 9001 }

steps_failed_example :
    steps (later ∷ later ∷ []) (step unanswered (new_engine desk_layout)).engine
    ≡ ((step unanswered (new_engine desk_layout)).engine, [])
unfolding step on_event cross is_armed new_engine barrier_for f32_le str_dec edge_dec command_for
    two_node_layout
steps_failed_example =
    steps_failed unanswered (later ∷ later ∷ []) (new_engine desk_layout)
      (switch_command "desk" (some (entry_for right half))) "timed out" refl refl
