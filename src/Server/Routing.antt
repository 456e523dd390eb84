-- ===== src/Server/Routing.antt =====
-- rkvm-master/rkvm-server/src/server.rs: `route_events` and what is built on it.
use nexus_kvm.Base.{
  ℕ, zero, suc, ◌+◌, ◌-◌, String, Bool, true, false, Option, none, some, List, [], ◌∷◌, map, ◌==◌,
  if◌then◌else◌, holds, str_dec, any_of, ℕ_discrete,
}
use nexus_kvm.Base.Float.{F32, f32_zero, f32_one, f32_clamp}
use nexus_kvm.Base.Int.{ℤ, pos, negsuc, leb_ℤ, ◌+ℤ◌}
use nexus_kvm.Router.{Router, Key, local_target, note_remote_motion, remove_peer}
use nexus_kvm.Server.{
  RelAxis, rel_x, rel_y, abs_x, abs_y, Event, key_event, rel_event, abs_event, sync, event_update,
  accepted, full, disconnected, try_send, send_timeout, AbsRanges, Device, ClientSlot, Server,
  find_client, drop_client, set_client,
}

-- Pixels that the local pointer is pushed away from the edge.
abbrev pub local_warp_px : ℕ
local_warp_px = 32

-- A send to one device, whose key is in the slab; what does not go in is dropped.
unfoldable pub send_local : ℕ → Event → List Device → List Device
send_local id e [] = []
send_local id e (d ∷ ds) =
    let rest = d ∷ send_local id e ds in
    if d.id == id then record d { sender = (try_send d.sender e).0 } ∷ ds else rest

unfoldable pub send_all_local : ℕ → List Event → List Device → List Device
send_all_local id [] ds = ds
send_all_local id (e ∷ es) ds = send_all_local id es (send_local id e ds)

-- The travel of the remote pointer is noted for a motion along x or y.
unfoldable pub note_motion : Event → Router → Router
note_motion (rel_event rel_x v) r = note_remote_motion r v (pos 0)
note_motion (rel_event rel_y v) r = note_remote_motion r (pos 0) v
note_motion _ r = r

abbrev pub is_key : Event → Bool
is_key (key_event k down) = true
is_key _ = false

-- What became of an update for a peer: its slot with the result, or the loss of the peer.
pub data Delivery : Type 0 where
  delivered : ClientSlot → Delivery
  lost : Delivery

-- A key event that finds the queue full gets a bounded retry; else the event is dropped.
unfoldable pub deliver : ℕ → Event → ClientSlot → Delivery
deliver device e slot =
    let update = event_update device e in
    let (ch, result) = try_send slot.sender update in
    let (ch', done) = send_timeout ch update in
    elim result [
      | accepted ↦ delivered (record slot { sender = ch })
      | full ↦
          if is_key e
          then if done
            then delivered (record slot { sender = ch' })
            else delivered (record slot { sender = ch'; dropped = slot.dropped + 1 })
          else delivered (record slot { dropped = slot.dropped + 1 })
      | disconnected ↦ lost
    ]

-- The slot and the peer are gone; the keys that `remove_peer` gives are not used.
abbrev pub forget : String → Server → Server
forget id s = record s { clients = drop_client id s.clients; router = (remove_peer s.router id).0 }

-- The loop over the events for a peer, which ends when the channel is closed.
unfoldable pub route_remote : ℕ → String → List Event → Server → Server
route_remote device dest [] s = s
route_remote device dest (e ∷ es) s =
    let noted = record s { router = note_motion e s.router } in
    elim (find_client dest s.clients) [
      | none ↦ s
      | some slot ↦ elim (deliver device e slot) [
        | delivered slot' ↦
            route_remote device dest es (record noted { clients = set_client slot' s.clients })
        | lost ↦ forget dest noted
      ]
    ]

abbrev pub is_missing : Option ClientSlot → Bool
is_missing none = true
is_missing (some slot) = false

unfoldable pub route_events : ℕ → String → List Event → Server → Server
route_events device dest events s =
    if holds (str_dec dest local_target)
    then record s { devices = send_all_local device events s.devices }
    else if is_missing (find_client dest s.clients)
    then record s { router = (remove_peer s.router dest).0 }
    else route_remote device dest events s

-- A release on this machine: a bounded retry if the queue is full.
unfoldable pub send_release : Device → Event → Device
send_release d e =
    let (ch, result) = try_send d.sender e in
    elim result [
      | full ↦ record d { sender = (send_timeout ch e).0 }
      | _ ↦ record d { sender = ch }
    ]

abbrev pub release_of : Key → List Event
release_of k = key_event k false ∷ sync ∷ []

unfoldable pub release_on : List Event → Device → Device
release_on [] d = d
release_on (e ∷ es) d = release_on es (send_release d e)

-- The release of one key on a peer, once for each device.
unfoldable pub release_remote : List ℕ → Key → String → Server → Server
release_remote [] k dest s = s
release_remote (id ∷ ids) k dest s =
    release_remote ids k dest (route_events id dest (release_of k) s)

unfoldable pub emit_releases : List (Key × String) → Server → Server
emit_releases [] s = s
emit_releases ((k, dest) ∷ keys) s = emit_releases keys (
    if holds (str_dec dest local_target)
    then record s { devices = map (release_on (release_of k)) s.devices }
    else release_remote (map (λ d. d.id) s.devices) k dest s)

-- The axis and the distance of the push away from an edge.
unfoldable pub local_push : ℕ → RelAxis × ℤ
local_push zero = (rel_x, pos local_warp_px)
local_push (suc zero) = (rel_x, negsuc (local_warp_px - 1))
local_push (suc (suc zero)) = (rel_y, pos local_warp_px)
local_push (suc (suc (suc e))) = (rel_y, negsuc (local_warp_px - 1))

unfoldable pub rel_dec : Discrete RelAxis
rel_dec = hlevel ℕ_discrete

-- The two events of the push; a full queue ends it for that device.
unfoldable pub push_device : RelAxis × ℤ → Device → Device
push_device (axis, delta) d =
    let (ch, first) = try_send d.sender (rel_event axis delta) in
    let after = record d { sender = (try_send ch sync).0 } in
    if any_of (λ a. holds (rel_dec a axis)) d.rel
    then elim first [ full ↦ record d { sender = ch } | _ ↦ after ]
    else d

unfoldable pub emit_local_warp : ℕ → Server → Server
emit_local_warp edge s = record s { devices = map (push_device (local_push edge)) s.devices }

-- The first device with both absolute axes.
unfoldable pub find_absolute : List Device → Option (ℕ × AbsRanges)
find_absolute [] = none
find_absolute (d ∷ ds) = elim d.abs [ none ↦ find_absolute ds | some ranges ↦ some (d.id, ranges) ]

-- `x.saturating_sub(2)` on `i32`.
unfoldable pub saturating_sub_inset : ℤ → ℤ
saturating_sub_inset x = if leb_ℤ x (negsuc 0x7ffffffe) then negsuc 0x7fffffff else x +ℤ negsuc 1

-- `scaled` is the integer of `((max - min) as f32 * t).round()`.
module _ (scaled : F32 → ℤ → ℤ → ℤ) where
  unfoldable pub lerp_abs : F32 → ℤ → ℤ → ℤ
  lerp_abs x lo hi = if leb_ℤ hi lo then lo else lo +ℤ scaled (f32_clamp x f32_zero f32_one) lo hi

  -- The place of the pointer, 2 units inside the edge.
  unfoldable pub warp_point : ℕ → F32 → AbsRanges → ℤ × ℤ
  warp_point zero x a = (a.xmin +ℤ pos 2, lerp_abs x a.ymin a.ymax)
  warp_point (suc zero) x a = (saturating_sub_inset a.xmax, lerp_abs x a.ymin a.ymax)
  warp_point (suc (suc zero)) x a = (lerp_abs x a.xmin a.xmax, a.ymin +ℤ pos 2)
  warp_point (suc (suc (suc e))) x a = (lerp_abs x a.xmin a.xmax, saturating_sub_inset a.ymax)

  unfoldable pub emit_warp : String → ℕ → F32 → Server → Server
  emit_warp dest edge x s = elim (find_absolute s.devices) [
    | none ↦ s
    | some (device, ranges) ↦
        let (xv, yv) = warp_point edge x ranges in
        route_events device dest (abs_event abs_x xv ∷ abs_event abs_y yv ∷ sync ∷ []) s
  ]
