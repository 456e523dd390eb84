-- ===== src/Scenarios/Servers.antt =====
-- Runs of the server's loop.
use nexus_kvm.Base.{
  ℕ, String, ◌≡◌, refl, ◌⊎◌, inr, true, false, none, some, List, [], ◌∷◌, arith, str_dec,
}
use nexus_kvm.Base.Dict.{lookup}
use nexus_kvm.Base.Float.{F32}
use nexus_kvm.Base.Int.{ℤ, pos}
use nexus_kvm.Router.{Key, key, local_target, snapshot, is_connected}
use nexus_kvm.Router.Switch.{next_target}
use nexus_kvm.Router.Commands.{activates}
use nexus_kvm.Router.Published.{IsHonest}
use nexus_kvm.Router.Events.{IsSound}
use nexus_kvm.Server.{
  Event, key_event, rel_event, rel_x, sync, Channel, Device, ClientSlot, Server, start,
}
use nexus_kvm.Server.Routing.{emit_releases}
use nexus_kvm.Server.Handlers.{handle_tick, prune_and_release, fire_chord, dead_ids, remove_all}
use nexus_kvm.Server.Steps.{Arm, ticked, registered, commanded, input, run, run-IsHonest}
use nexus_kvm.Server.Handoff.{handle_tick-reverts}
use nexus_kvm.Server.Chord.{fire_chord-IsAt}
use nexus_kvm.Scenarios.{at_desk}

abbrev open_channel : {A : Type 0} → Channel A
open_channel = record { closed = false; free = 8; drains = true; sent = [] }

abbrev slot : String → ClientSlot
slot id = record { id = id; sender = open_channel; dropped = 0 }

abbrev mouse : Device
mouse = record { id = 0; rel = rel_x ∷ []; abs = none; sender = open_channel }

-- Both peers have a connection, and "desk" was entered and asked to confirm.
abbrev working : Server
working = record {
  devices = mouse ∷ [];
  clients = slot "desk" ∷ slot "tv" ∷ [];
  router = at_desk;
  pressed_keys = [];
  chord_active = false;
  pending_ready = some (record { peer = "desk"; epoch = 4; due = 700 });
  confirmed_epoch = 3;
}

abbrev motions : List Event
motions = rel_event rel_x (pos 5) ∷ sync ∷ key_event (key 30) true ∷ []

abbrev no_product : F32 → ℤ → ℤ → ℤ
no_product x lo hi = pos 0

abbrev arms : List (ℕ × Arm)
arms =
    (10, registered "desk" "10.0.0.2:4040" open_channel)
    ∷ (20, commanded (activates "desk"))
    ∷ (30, input 0 (rel_event rel_x (pos 5)))
    ∷ (900, ticked)
    ∷ []

abbrev shortcut_keys : List Key
shortcut_keys = key 29 ∷ key 56 ∷ []

run-IsHonest_example :
    let r = (run no_product shortcut_keys false arms start).router in
    IsSound r × IsHonest (snapshot r)
run-IsHonest_example = run-IsHonest no_product shortcut_keys false arms

at_desk-IsSound : IsSound at_desk
unfolding is_connected lookup str_dec
at_desk-IsSound = (
  record {
    reachable = inr refl;
    idle = refl;
    edge = omega arith;
    warp_edge = tt;
    counter = omega arith;
  },
  λ id up. ground arith,
)

handle_tick-reverts_example :
    ((handle_tick 900 working).pending_ready ≡ none)
    × ((handle_tick 900 working).router.active ≡ local_target)
unfolding prune_and_release dead_ids remove_all emit_releases
handle_tick-reverts_example =
    handle_tick-reverts 900 working (record { peer = "desk"; epoch = 4; due = 700 }) at_desk-IsSound
      refl refl refl

-- The shortcut went on to "tv" while "desk" had not confirmed.
abbrev moved_on : Server
moved_on = record working { router = record at_desk { active = "tv"; next_transition = 5 } }

-- The handoff to "desk", before it is asked for.
abbrev crossing : Server
crossing = record working { pending_ready = none }

fire_chord-IsAt_example :
    let s' = fire_chord 200 working in
    let target = next_target (record at_desk { held_keys = [] }) in
    (s'.pressed_keys ≡ [])
    × (s'.chord_active ≡ true)
    × (s'.router.held_keys ≡ [])
    × ((s'.router.active ≡ target)
        ⊎ ((s'.router.active ≡ local_target) × (is_connected s'.router.peers target ≡ false)))
fire_chord-IsAt_example = fire_chord-IsAt 200 working refl
