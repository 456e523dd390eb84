-- ===== src/Scenarios/Services.antt =====
-- Runs of the supervisor of the desktop program and of its logs.
use nexus_kvm.Base.{◌≤◌, some, ◌≡◌, refl, true, false, none, some, [], ◌∷◌, ◌≤◌, str_dec}
use nexus_kvm.Base.Dict.{lookup}
use nexus_kvm.Desktop.Logs.{on_live, Pump, Turn}
use nexus_kvm.Desktop.Supervisor.{
  host, Inner, Backoff, Round, should_attempt, fails_of, child_running,
}
use nexus_kvm.Desktop.Supervisor.Starts.{Spaced, starts, starts-Spaced}
use nexus_kvm.Desktop.Supervisor.Stops.{turns, running, turns_undo}

abbrev one_start : Backoff
one_start = record { fails = ("nexus-agent", 1) ∷ []; last = ("nexus-agent", 10) ∷ [] }

starts-Spaced_example :
    Spaced
      (fails_of "nexus-agent" one_start)
      10
      (starts "nexus-agent" (11 ∷ 12 ∷ 14 ∷ 20 ∷ []) one_start)
unfolding lookup str_dec
starts-Spaced_example = starts-Spaced "nexus-agent" 10 (11 ∷ 12 ∷ 14 ∷ 20 ∷ []) one_start refl

abbrev crashed : Inner
crashed = record { daemon = some 41; client = none; agent = some 42; last_error = none }

abbrev no_starts : Backoff
no_starts = record { fails = []; last = [] }

-- The daemon is gone, and the user stops the program while the socket is awaited.
abbrev stopped_round : Round
stopped_round = record {
  boot_active = false;
  runs = λ pid. false;
  socket = false;
  stops = true;
  has_binary = true;
  has_config = true;
  spawned = some 43;
  agent_spawned = none;
  now = 5;
  agent_now = 6;
}

turns_undo_example :
    ((turns
        (some host)
        (stopped_round ∷ stopped_round ∷ [])
        (running crashed)
        no_starts).runtime.inner.daemon
      ≡ some 43)
    × ((turns
          (some host)
          (stopped_round ∷ stopped_round ∷ [])
          (running crashed)
          no_starts).runtime.desired_running
        ≡ false)
unfolding child_running should_attempt lookup
turns_undo_example =
    turns_undo stopped_round crashed no_starts 43
      (record {
        session = refl;
        gone = refl;
        silent = refl;
        allowed = refl;
        binary = refl;
        config = refl;
        spawned = refl;
      })
      refl (stopped_round ∷ [])

abbrev greeting : Turn
greeting = record { line = b'h' ∷ b'i' ∷ []; renames = true; opens = true; writes = true }

abbrev opened_log : Pump
opened_log = record { written = 2; file = some on_live }
