-- ===== src/Server/Delivery.antt =====
-- rkvm-master/rkvm-server/src/server.rs: the queue of a peer in `route_events` and `arm_ready`.
use nexus_kvm.Base.{
  ℕ, zero, suc, ◌+◌, ◌-◌, ◌<◌, ◌≤◌, String, ◌≡◌, refl, ap, ◌∙◌, ◌≢◌, false, none, some, List, [],
  ◌∷◌, ◌++◌, map, arith, length,
}
use nexus_kvm.Router.{local_target}
use nexus_kvm.Server.{
  Event, Update, event_update, take_control, accepted, Channel, put, try_send, ClientSlot, Server,
  find_client, set_client,
}
use nexus_kvm.Server.Routing.{note_motion, delivered, deliver, route_remote, route_events}
use nexus_kvm.Server.Handlers.{offer, arm_ready, await_ready, settle_handoff, ready_timeout}

find_client-id :
    (id : String) (cs : List ClientSlot) (slot : ClientSlot)
    → find_client id cs ≡ some slot
    → slot.id ≡ id
unfolding find_client
find_client-id id [] slot e = cc
find_client-id id (c ∷ cs) slot e = ground (arith, find_client-id id cs slot)

find_client-set_client :
    (id : String) (cs : List ClientSlot) (old slot : ClientSlot)
    → find_client id cs ≡ some old
    → slot.id ≡ id
    → find_client id (set_client slot cs) ≡ some slot
unfolding find_client set_client
find_client-set_client id [] old slot e same = cc
find_client-set_client id (c ∷ cs) old slot e same =
    ground (arith, find_client-set_client id cs old slot)

abbrev pub updates : ℕ → List Event → List Update
updates device = map (event_update device)

append_cons {ℓ} :
    {A : Type ℓ} (xs : List A) (x : A) (ys : List A) → (xs ++ x ∷ []) ++ ys ≡ xs ++ x ∷ ys
append_cons [] x ys = refl
append_cons (z ∷ xs) x ys = ap (λ t. z ∷ t) (append_cons xs x ys)

append_nil {ℓ} : {A : Type ℓ} (xs : List A) → xs ≡ xs ++ []
append_nil [] = refl
append_nil (z ∷ xs) = ap (λ t. z ∷ t) (append_nil xs)

-- The slot after one update that found a place.
abbrev pub pushed : Update → ClientSlot → ClientSlot
pushed u slot = record slot {
  sender = record slot.sender { free = slot.sender.free - 1; sent = slot.sender.sent ++ u ∷ [] };
}

put-room :
    (n : ℕ) (ch : Channel Update) (u : Update)
    → 0 < n
    → put n ch u ≡ (record ch { free = n - 1; sent = ch.sent ++ u ∷ [] }, accepted)
unfolding put
put-room zero ch u h = absurd (omega arith)
put-room (suc n) ch u h = ground arith

try_send-room :
    (ch : Channel Update) (u : Update)
    → ch.closed ≡ false
    → 0 < ch.free
    → try_send ch u ≡ (record ch { free = ch.free - 1; sent = ch.sent ++ u ∷ [] }, accepted)
unfolding try_send
try_send-room ch u alive room = ground (arith, put-room ch.free ch u room)

deliver-room :
    (device : ℕ) (e : Event) (slot : ClientSlot)
    → slot.sender.closed ≡ false
    → 0 < slot.sender.free
    → deliver device e slot ≡ delivered (pushed (event_update device e) slot)
unfolding deliver
deliver-room device e slot alive room =
    ground (arith, try_send-room slot.sender (event_update device e) alive room)

-- What a peer has received of `events`, in order.
pub record IsReceived (device : ℕ) (dest : String) (events : List Event) (slot : ClientSlot)
    (s s' : Server) : Type 0 where
  pub slot' : ClientSlot
  pub found : find_client dest s'.clients ≡ some slot'
  pub sent : slot'.sender.sent ≡ slot.sender.sent ++ updates device events
  pub dropped : slot'.dropped ≡ slot.dropped
  pub devices : s'.devices ≡ s.devices

route_remote-IsReceived :
    (device : ℕ) (dest : String) (events : List Event) (s : Server) (slot : ClientSlot)
    → find_client dest s.clients ≡ some slot
    → slot.sender.closed ≡ false
    → length events ≤ slot.sender.free
    → IsReceived device dest events slot s (route_remote device dest events s)
unfolding route_remote
route_remote-IsReceived device dest [] s slot e alive room = record {
  slot' = slot;
  found = e;
  sent = append_nil _;
  dropped = refl;
  devices = refl;
}
route_remote-IsReceived device dest (x ∷ xs) s slot e alive room =
    let u = event_update device x in
    let s' = record s {
      router = note_motion x s.router;
      clients = set_client (pushed u slot) s.clients;
    } in
    let ih =
      route_remote-IsReceived device dest xs s' (pushed u slot)
        (find_client-set_client dest s.clients slot (pushed u slot) e
          (find_client-id dest s.clients slot e))
        alive (omega arith) in
    rw (route_remote, e, deliver-room device x slot alive (omega arith))
      (record {
        slot' = ih.slot';
        found = ih.found;
        sent = ih.sent ∙ append_cons slot.sender.sent u (updates device xs);
        dropped = ih.dropped;
        devices = ih.devices;
      })

-- Events for a peer whose queue has room for them arrive there, all and in order; none is counted as
-- dropped, and none reaches this machine.
pub route_events-IsReceived :
    (device : ℕ) (dest : String) (events : List Event) (s : Server) (slot : ClientSlot)
    → dest ≢ local_target
    → find_client dest s.clients ≡ some slot
    → slot.sender.closed ≡ false
    → length events ≤ slot.sender.free
    → IsReceived device dest events slot s (route_events device dest events s)
unfolding route_events
route_events-IsReceived device dest events s slot away e alive room =
    let h = route_remote-IsReceived device dest events s slot e alive room in ground arith

-- When a switch to a peer is not confirmed yet, no other handoff waits, and the queue of the peer has
-- room, the peer is asked to confirm the newest transition, and the wait for it starts.
pub settle_handoff-asks :
    (now : ℕ) (s : Server) (slot : ClientSlot)
    → s.router.active ≢ local_target
    → s.router.next_transition ≢ s.confirmed_epoch
    → s.pending_ready ≡ none
    → find_client s.router.active s.clients ≡ some slot
    → slot.sender.closed ≡ false
    → 0 < slot.sender.free
    → let s' = settle_handoff now s in
      let epoch = s.router.next_transition in
      (s'.pending_ready
        ≡ some (record { peer = s.router.active; epoch = epoch; due = now + ready_timeout }))
      × (find_client s.router.active s'.clients ≡ some (pushed (take_control epoch) slot))
unfolding settle_handoff await_ready arm_ready offer
settle_handoff-asks now s slot away fresh idle e alive room =
    let u = take_control s.router.next_transition in
    ground (
      arith,
      try_send-room slot.sender u alive room,
      find_client-set_client s.router.active s.clients slot (pushed u slot) e
          (find_client-id s.router.active s.clients slot e),
    )
