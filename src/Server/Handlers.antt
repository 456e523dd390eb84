-- ===== src/Server/Handlers.antt =====
-- rkvm-master/rkvm-server/src/server.rs: the arms of the `select!` in `run`, and what they call. The
-- clock's milliseconds are an argument. A snapshot is published from the router that an arm leaves.
use nexus_kvm.Base.{
  ℕ, ◌+◌, String, ite, Bool, true, false, not, ◌&&◌, Option, none, some, List, [], ◌∷◌, ◌++◌, map,
  ◌==◌, leb, if◌then◌else◌, holds, is_ok, str_dec, length, is_empty, any_of, keep_if,
}
use nexus_kvm.Base.Float.{F32}
use nexus_kvm.Base.Int.{ℤ}
use nexus_kvm.Router.{
  Router, Key, key_dec, local_target, insert_peer, remove_peer, take_local_warp, drain_held,
  event_target,
}
use nexus_kvm.Router.Switch.{switch_local, switch_next, finish_chord}
use nexus_kvm.Router.Keys.{note_key, restore_held}
use nexus_kvm.Router.Commands.{Command, apply}
use nexus_kvm.Server.{
  Event, key_event, sync, Update, create_device, destroy_device, take_control, Channel, accepted,
  full, disconnected, try_send, send_timeout, Device, ClientSlot, PendingReady, Server, find_client,
  drop_client, set_client,
}
use nexus_kvm.Server.Routing.{route_events, emit_releases, emit_local_warp, emit_warp}

-- How long a peer may take to confirm, in milliseconds.
abbrev pub ready_timeout : ℕ
ready_timeout = 500

-- The handshake with the slot of the new target: the slot, and whether the peer must confirm.
unfoldable pub offer : ℕ → ClientSlot → ClientSlot × Bool
offer epoch slot =
    let (ch, result) = try_send slot.sender (take_control epoch) in
    let (ch', done) = send_timeout ch (take_control epoch) in
    elim result [
      | accepted ↦ (record slot { sender = ch }, true)
      | full ↦ (record slot { sender = ch' }, done)
      | disconnected ↦ (slot, false)
    ]

unfoldable pub arm_ready : Server → Server × Option (String × ℕ)
arm_ready s =
    let target = s.router.active in
    let epoch = s.router.next_transition in
    if holds (str_dec target local_target) then (s, none) else elim (find_client target s.clients) [
      | none ↦ (s, none)
      | some slot ↦
          let (slot', armed) = offer epoch slot in
          (
            record s { clients = set_client slot' s.clients },
            if armed then some (target, epoch) else none,
          )
    ]

abbrev pub is_unset : Option PendingReady → Bool
is_unset none = true
is_unset (some p) = false

-- The push of the local pointer away from the edge, if one is due.
unfoldable pub warp_home : Server → Server
warp_home s =
    let (r, edge) = take_local_warp s.router in
    let s' = record s { router = r } in elim edge [ none ↦ s' | some e ↦ emit_local_warp e s' ]

unfoldable pub await_ready : ℕ → Server → Server
await_ready now s =
    let (s', armed) = arm_ready s in
    elim armed [
      | none ↦ s'
      | some (peer, epoch) ↦ record s' {
        pending_ready = some (record { peer = peer; epoch = epoch; due = now + ready_timeout });
      }
    ]

-- What follows a switch by a command or by the shortcut.
unfoldable pub settle_handoff : ℕ → Server → Server
settle_handoff now s =
    if holds (str_dec s.router.active local_target)
    then (let s' = warp_home s in
        record s' { pending_ready = none; confirmed_epoch = s'.router.next_transition })
    else if not (s.router.next_transition == s.confirmed_epoch) && is_unset s.pending_ready
    then await_ready now s
    else s

unfoldable pub handle_command : (F32 → ℤ → ℤ → ℤ) → ℕ → Command → Server → Server
handle_command scaled now c s =
    let o = apply c s.router in
    let s' = emit_releases o.applied.keys (record s { router = o.router }) in
    settle_handoff now (elim o.applied.warp [
      | none ↦ s'
      | some (target, (edge, x)) ↦ emit_warp scaled target edge x s'
    ])

-- A confirmation counts only for the handoff that waits for it.
unfoldable pub handle_ready : String → ℕ → Server → Server
handle_ready peer epoch s = elim s.pending_ready [
  | none ↦ s
  | some p ↦
      if p.epoch == epoch && holds (str_dec p.peer peer)
      then record s { pending_ready = none; confirmed_epoch = epoch }
      else s
]

unfoldable pub dead_ids : List ClientSlot → List String
dead_ids [] = []
dead_ids (c ∷ cs) = let rest = dead_ids cs in if c.sender.closed then c.id ∷ rest else rest

unfoldable pub remove_all : Router → List String → Router × List (Key × String)
remove_all r [] = (r, [])
remove_all r (id ∷ ids) =
    let (r', keys) = remove_peer r id in let (r'', more) = remove_all r' ids in (r'', keys ++ more)

unfoldable pub prune_and_release : Server → Server
prune_and_release s =
    let (r, keys) = remove_all s.router (dead_ids s.clients) in
    emit_releases keys
      (record s { clients = keep_if (λ c. not c.sender.closed) s.clients; router = r })

unfoldable pub revert_unconfirmed : Server → Server
revert_unconfirmed s = elim s.pending_ready [
  | none ↦ s
  | some p ↦
      let s' = record s { pending_ready = none } in
      let (r, held) = drain_held s.router in
      ite (str_dec s.router.active p.peer)
        (warp_home (emit_releases held (record s' { router = (switch_local r).0 }))) s'
]

-- `Instant::now() >= p.due`
abbrev pub is_due : ℕ → Option PendingReady → Bool
is_due now none = false
is_due now (some p) = leb p.due now

unfoldable pub handle_tick : ℕ → Server → Server
handle_tick now s =
    let s' = prune_and_release s in
    if is_due now s'.pending_ready then revert_unconfirmed s' else s'

-- Updates that are awaited until they go in, unless the channel is closed.
abbrev sends_all : List Update → Channel Update → Channel Update
sends_all us ch = if ch.closed then ch else record ch { sent = ch.sent ++ us }

unfoldable pub handle_register : String → String → Channel Update → Server → Server
handle_register id address sender s =
    let s' = prune_and_release s in
    let created = map (λ d. create_device d.id) s'.devices in
    record s' {
      clients =
          drop_client id s'.clients
          ++ record { id = id; sender = sends_all created sender; dropped = 0 } ∷ [];
      router = insert_peer s'.router id address;
    }

unfoldable pub handle_device : Device → Server → Server
handle_device d s = record s {
  clients =
      map (λ (c : ClientSlot). record c { sender = sends_all (create_device d.id ∷ []) c.sender })
        s.clients;
  devices = s.devices ++ d ∷ [];
}

unfoldable pub handle_device_lost : ℕ → Server → Server
handle_device_lost id s = record s {
  clients =
      map (λ (c : ClientSlot). record c { sender = sends_all (destroy_device id ∷ []) c.sender })
        s.clients;
  devices = keep_if (λ d. not (d.id == id)) s.devices;
}

abbrev pub has_key : Key → List Key → Bool
has_key k = any_of (λ j. holds (key_dec j k))

-- `pressed_keys.insert(key)`, `pressed_keys.remove(&key)`
unfoldable pub press_key : Key → Bool → List Key → List Key
press_key k true ks = if has_key k ks then ks else ks ++ k ∷ []
press_key k false ks = keep_if (λ j. not (holds (key_dec j k))) ks

unfoldable pub restore_all : List (Key × String) → Router → Router
restore_all [] r = r
restore_all ((k, dest) ∷ keys) r = restore_all keys (restore_held r k dest)

-- The shortcut is complete: every held key is released before the target changes.
unfoldable pub fire_chord : ℕ → Server → Server
fire_chord now s =
    let (drained, held) = drain_held s.router in
    let (r, result) = switch_next drained in
    let s' = record s { router = r; chord_active = true } in
    if is_ok result
    then settle_handoff now (emit_releases held (record s' { pressed_keys = [] }))
    else record s' { router = restore_all held r }

abbrev pub get_or {ℓ} : {A : Type ℓ} → Option A → A → A
get_or none a = a
get_or (some b) a = b

abbrev pub finish_if : Bool → Server → Server
finish_if true s = record s { router = finish_chord s.router }
finish_if false s = s

-- The end of the arm: the event is withheld if it belongs to an engaged shortcut, else it goes to
-- the machine where the key went down, or to the target of events.
unfoldable pub finish_event : Bool → ℕ → Event → Bool → Bool → Option String → Server → Server
finish_event propagate device e press complete held_dest s =
    let suppress = press && (not propagate && s.chord_active) in
    let s' = record s { chord_active = if complete then false else s.chord_active } in
    let events = e ∷ (if press then sync ∷ [] else []) in
    let dest = get_or held_dest (event_target s'.router) in
    finish_if complete (if suppress then s' else route_events device dest events s')

module _ (switch_keys : List Key) (propagate : Bool) where
  unfoldable pub handle_key : ℕ → ℕ → Key → Bool → Server → Server
  handle_key now device k down s =
      let (r, held_dest) = note_key s.router k down in
      let press = has_key k switch_keys in
      let pressed = if press then press_key k down s.pressed_keys else s.pressed_keys in
      let s' = record s { router = r; pressed_keys = pressed } in
      let fires = press && length pressed == length switch_keys in
      finish_event propagate device (key_event k down) press (press && is_empty pressed) held_dest
        (if fires then fire_chord now s' else s')

  unfoldable pub handle_input : ℕ → ℕ → Event → Server → Server
  handle_input now device (key_event k down) s = handle_key now device k down s
  handle_input now device e s = finish_event propagate device e false false none s
