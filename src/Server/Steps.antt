-- ===== src/Server/Steps.antt =====
-- rkvm-master/rkvm-server/src/server.rs: the `select!` loop of `run`, as any sequence of its arms.
-- Each arm carries what its branch received. Between the rounds the other
-- ends of the channels move: peers and devices are lost in this way.
use nexus_kvm.Base.{
  ℕ, String, sym, subst, Bool, List, [], ◌∷◌, if_intro, map, holds, str_dec, ◌&&◌, ◌==◌, length,
  if◌then◌else◌,
}
use nexus_kvm.Base.Float.{F32}
use nexus_kvm.Base.Int.{ℤ}
use nexus_kvm.Router.{Key, snapshot}
use nexus_kvm.Router.Commands.{Command}
use nexus_kvm.Router.Published.{IsHonest, snapshot-IsHonest}
use nexus_kvm.Router.Events.{Event, handle, handle-IsSound, IsSound, new-IsSound}
use nexus_kvm.Server
use nexus_kvm.Server.{Update, Channel, Device, ClientSlot, Server, start}
use nexus_kvm.Server.Handlers.{
  handle_command, handle_ready, handle_tick, handle_register, handle_device, handle_device_lost,
  handle_key, handle_input, has_key, press_key,
}
use nexus_kvm.Server.Sound.{
  handle_command-IsSound, handle_ready-router, handle_tick-IsSound, handle_register-IsSound,
  fire_chord-IsSound, finish_event-IsSound,
}

pub data Arm : Type 0 where
  commanded : Command → Arm
  confirmed : String → ℕ → Arm
  ticked : Arm
  client_moves : String → Bool → ℕ → Bool → Arm
  device_moves : ℕ → Bool → ℕ → Bool → Arm
  registered : String → String → Channel Update → Arm
  device_found : Device → Arm
  device_lost : ℕ → Arm
  input : ℕ → Server.Event → Arm

-- Between two rounds the task at the other end of a channel takes what was sent, stalls, or ends: if
-- the channel is closed, its free places, and if it makes room.
unfoldable pub moved {ℓ} : {A : Type ℓ} → Bool → ℕ → Bool → Channel A → Channel A
moved closed free drains ch = record ch { closed = closed; free = free; drains = drains }

unfoldable pub move_client : String → Bool → ℕ → Bool → Server → Server
unfolding moved
move_client id closed free drains s = record s {
  clients =
      map
        (λ (c : ClientSlot).
          if holds (str_dec c.id id)
          then record c { sender = moved closed free drains c.sender }
          else c)
        s.clients;
}

unfoldable pub move_device : ℕ → Bool → ℕ → Bool → Server → Server
unfolding moved
move_device id closed free drains s = record s {
  devices =
      map
        (λ (d : Device).
          if d.id == id then record d { sender = moved closed free drains d.sender } else d)
        s.devices;
}

-- What `run` is given: the keys of the shortcut, and whether they are passed on.
module _ (scaled : F32 → ℤ → ℤ → ℤ) (switch_keys : List Key) (propagate : Bool) where
  -- One round of the loop at the time `now`.
  unfoldable pub run_arm : ℕ → Arm → Server → Server
  unfolding move_client move_device
  run_arm now (commanded c) s = handle_command scaled now c s
  run_arm now (confirmed peer epoch) s = handle_ready peer epoch s
  run_arm now ticked s = handle_tick now s
  run_arm now (client_moves id closed free drains) s = move_client id closed free drains s
  run_arm now (device_moves id closed free drains) s = move_device id closed free drains s
  run_arm now (registered id address sender) s = handle_register id address sender s
  run_arm now (device_found d) s = handle_device d s
  run_arm now (device_lost id) s = handle_device_lost id s
  run_arm now (input device e) s = handle_input switch_keys propagate now device e s

  pub run : List (ℕ × Arm) → Server → Server
  run [] s = s
  run ((now, a) ∷ arms) s = run arms (run_arm now a s)

  handle_key-IsSound :
      (now device : ℕ) (k : Key) (down : Bool) (s : Server)
      → IsSound s.router
      → IsSound (handle_key switch_keys propagate now device k down s).router
  unfolding handle_key handle
  handle_key-IsSound now device k down s h =
      let noted = handle-IsSound (Event.key_event k down) s.router h in
      finish_event-IsSound propagate device _ _ _ _ _ (
        if_intro (λ (t : Server). IsSound t.router) (fires k down s)
          (λ e. fire_chord-IsSound now _ noted) (λ e. noted))
    where
      fires : Key → Bool → Server → Bool
      fires k down s =
          let press = has_key k switch_keys in
          let pressed = if press then press_key k down s.pressed_keys else s.pressed_keys in
          press && length pressed == length switch_keys

  run_arm-IsSound :
      (now : ℕ) (a : Arm) (s : Server) → IsSound s.router → IsSound (run_arm now a s).router
  unfolding run_arm handle_device handle_device_lost handle_input
  run_arm-IsSound now (commanded c) s h = handle_command-IsSound scaled now c s h
  run_arm-IsSound now (confirmed peer epoch) s h =
      subst IsSound (sym (handle_ready-router peer epoch s)) h
  run_arm-IsSound now ticked s h = handle_tick-IsSound now s h
  run_arm-IsSound now (client_moves id closed free drains) s h = h
  run_arm-IsSound now (device_moves id closed free drains) s h = h
  run_arm-IsSound now (registered id address sender) s h =
      handle_register-IsSound id address sender s h
  run_arm-IsSound now (device_found d) s h = h
  run_arm-IsSound now (device_lost id) s h = h
  run_arm-IsSound now (input device (Server.key_event k down)) s h =
      handle_key-IsSound now device k down s h
  run_arm-IsSound now (input device (Server.rel_event a v)) s h =
      finish_event-IsSound propagate device _ _ _ _ s h
  run_arm-IsSound now (input device (Server.abs_event a v)) s h =
      finish_event-IsSound propagate device _ _ _ _ s h
  run_arm-IsSound now (input device (Server.other_abs a v)) s h =
      finish_event-IsSound propagate device _ _ _ _ s h
  run_arm-IsSound now (input device Server.sync) s h =
      finish_event-IsSound propagate device _ _ _ _ s h

  run-IsSound :
      (arms : List (ℕ × Arm)) (s : Server) → IsSound s.router → IsSound (run arms s).router
  unfolding run
  run-IsSound [] s h = h
  run-IsSound ((now, a) ∷ arms) s h = run-IsSound arms (run_arm now a s) (run_arm-IsSound now a s h)

  -- Whatever the loop receives, and however its channels fill, drain and close between the rounds, in
  -- any order: the router that it leaves meets its invariant (the
  -- active target is this machine or a connected peer, no transition is half done, edges are edges,
  -- the counter fits in 64 bits), every connected peer takes part in the shortcut, and the snapshot
  -- that the loop publishes is honest.
  pub run-IsHonest :
      (arms : List (ℕ × Arm)) → let r = (run arms start).router in IsSound r × IsHonest (snapshot r)
  unfolding start
  run-IsHonest arms =
      let (v, reg) = run-IsSound arms start new-IsSound in ((v, reg), snapshot-IsHonest _ v reg)
