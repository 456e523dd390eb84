-- ===== src/Agent/Engine.antt =====
-- crates/nexus-agent/src/engine.rs and daemon_client.rs: the gate of the pointer's edge crossings.
-- The capture of the pointer and the daemon's socket are the arguments of a step. Times are in
-- milliseconds.
use nexus_kvm.Base.{
  ℕ, ◌+◌, ◌<◌, ◌≡◌, refl, ap, ap₂, ◌∙◌, String, Bool, true, false, not, ◌&&◌, ◌||◌, Option, none,
  some, List, [], ◌∷◌, leb, if◌then◌else◌, holds, Result, ok, err, str_dec, All, arith,
}
use nexus_kvm.Base.Float.{F32}
use nexus_kvm.Router.{local_target}
use nexus_kvm.Common.Model.{PeerId, Edge, Barrier, Layout}
use nexus_kvm.Common.Geometry.{barrier_for, entry_for}
use nexus_kvm.Daemon.Ipc.{ControlCommand, local_command, switch_command, ControlResponse}

pub data Gate : Type 0 where
  armed switching : Gate
  cooldown : ℕ → Gate

pub record EdgeEngine : Type 0 where
  pub layout : Layout
  pub local_peer : PeerId
  pub gate : Gate
  pub allow_drag : Bool

pub record EdgeEvent : Type 0 where
  pub display_id : String
  pub edge : Edge
  pub normalized_position : F32
  pub any_button_pressed : Bool

-- What a step meets: the time at its start (the activation delay passes before `after`), the event of the capture, what `DaemonClient::send`
-- returns, its time-out included, and the time after it.
pub record Meets : Type 0 where
  pub now : ℕ
  pub event : Result EdgeEvent String
  pub reply : Result ControlResponse String
  pub after : ℕ

-- The engine after the step, what it sent, and whether it returned an error.
pub record Stepped : Type 0 where
  pub engine : EdgeEngine
  pub sent : Option ControlCommand
  pub failed : Bool

abbrev pub idle : EdgeEngine → Stepped
idle e = record { engine = e; sent = none; failed = false }

unfoldable pub new_engine : Layout → EdgeEngine
new_engine layout = record {
  layout = layout;
  local_peer = layout.local_peer;
  gate = armed;
  allow_drag = false;
}

unfoldable pub set_layout : Layout → EdgeEngine → EdgeEngine
set_layout layout e = record e { local_peer = layout.local_peer; layout = layout }

unfoldable pub command_for : Barrier → EdgeEvent → ControlCommand
command_for b event =
    if holds (str_dec b.destination local_target)
    then local_command
    else switch_command b.destination (some (entry_for event.edge event.normalized_position))

-- The gate after the reply. An error of `send` leaves it as it is.
unfoldable pub gate_after : ℕ → ℕ → Result ControlResponse String → Gate
gate_after after wait (err problem) = switching
gate_after after wait (ok r) = if r.succeeded then cooldown (after + wait) else armed

unfoldable pub is_failed : Result ControlResponse String → Bool
is_failed (err problem) = true
is_failed (ok r) = false

unfoldable pub cross : Meets → EdgeEvent → Barrier → EdgeEngine → Stepped
unfolding command_for gate_after is_failed
cross m event b e = record {
  engine = record e { gate = gate_after m.after b.cooldown_ms m.reply };
  sent = some (command_for b event);
  failed = is_failed m.reply;
}

unfoldable pub is_armed : Gate → Bool
is_armed armed = true
is_armed _ = false

-- The part of `step` after the cooldown.
unfoldable pub on_event : Meets → EdgeEngine → Stepped
unfolding cross is_armed
on_event m e = elim m.event [
  | err problem ↦ record { engine = e; sent = none; failed = true }
  | ok event ↦
      if not (is_armed e.gate) || (not e.allow_drag && event.any_button_pressed)
      then idle e
      else elim (barrier_for e.layout e.local_peer event.display_id event.edge
          event.normalized_position) [ none ↦ idle e | some b ↦ cross m event b e ]
]

unfoldable pub step : Meets → EdgeEngine → Stepped
unfolding on_event
step m e = elim e.gate [
  | cooldown t ↦ if leb t m.now then on_event m (record e { gate = armed }) else idle e
  | armed ↦ on_event m e
  | switching ↦ on_event m e
]

unfoldable pub noting :
    Option ControlCommand → EdgeEngine × List ControlCommand → EdgeEngine × List ControlCommand
noting none rest = rest
noting (some command) (e, later) = (e, command ∷ later)

-- Steps one after another, and the commands that they send.
unfoldable pub steps : List Meets → EdgeEngine → EdgeEngine × List ControlCommand
unfolding step noting
steps [] e = (e, [])
steps (m ∷ ms) e = let next = step m e in noting next.sent (steps ms next.engine)

step_switching :
    (m : Meets) (e : EdgeEngine)
    → e.gate ≡ switching
    → ((step m e).engine ≡ e) × ((step m e).sent ≡ none)
unfolding step on_event is_armed
step_switching m e h = ground arith

-- Once a command could not be sent, the engine never sends another: its gate stays as it was while
-- the command was under way, whatever the pointer does and however long it takes.
pub steps_switching : (ms : List Meets) (e : EdgeEngine) → e.gate ≡ switching → steps ms e ≡ (e, [])
unfolding steps noting
steps_switching [] e h = refl
steps_switching (m ∷ ms) e h =
    let (same, quiet) = step_switching m e h in
    ap₂ noting quiet (ap (steps ms) same ∙ steps_switching ms e h)

step_cooling :
    (m : Meets) (e : EdgeEngine) (t : ℕ) → e.gate ≡ cooldown t → m.now < t → step m e ≡ idle e
unfolding step
step_cooling m e t h early = ground arith

-- After a crossing that the daemon accepted, the engine sends nothing before the barrier's cooldown
-- is over.
pub steps_cooling :
    (ms : List Meets) (e : EdgeEngine) (t : ℕ)
    → e.gate ≡ cooldown t
    → All (λ m. m.now < t) ms
    → steps ms e ≡ (e, [])
unfolding steps noting
steps_cooling [] e t h early = refl
steps_cooling (m ∷ ms) e t h early =
    let still = step_cooling m e t h early.0 in
    ap₂ noting (ap (λ s. s.sent) still)
      (ap (λ s. steps ms s.engine) still ∙ steps_cooling ms e t h early.1)

on_event_failed :
    (m : Meets) (e : EdgeEngine) (command : ControlCommand) (problem : String)
    → (on_event m e).sent ≡ some command
    → m.reply ≡ err problem
    → (on_event m e).engine.gate ≡ switching
unfolding on_event cross gate_after
on_event_failed m e command problem sent h = ground arith

step_failed :
    (m : Meets) (e : EdgeEngine) (command : ControlCommand) (problem : String)
    → (step m e).sent ≡ some command
    → m.reply ≡ err problem
    → (step m e).engine.gate ≡ switching
unfolding step
step_failed m e command problem sent h = ground (
  arith,
  on_event_failed m e command problem,
  on_event_failed m (record e { gate = armed }) command problem,
)

-- After a command that could not be sent, by its time-out or another error of the socket, the engine
-- never sends another, whatever the pointer does and however long it takes.
pub steps_failed :
    (m : Meets) (ms : List Meets) (e : EdgeEngine) (command : ControlCommand) (problem : String)
    → (step m e).sent ≡ some command
    → m.reply ≡ err problem
    → steps ms (step m e).engine ≡ ((step m e).engine, [])
steps_failed m ms e command problem sent h =
    steps_switching ms (step m e).engine (step_failed m e command problem sent h)
