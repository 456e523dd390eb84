-- ===== src/Server.antt =====
-- rkvm-master/rkvm-server/src/server.rs: the state of the server's loop. A channel is seen from its
-- sender: whether it is closed, its free places, whether its receiver makes room within 20 ms, and
-- what went into it.
pub mod Routing
pub mod Handlers
pub mod Kept
pub mod Rest
pub mod Delivery
pub mod Sound
pub mod Steps
pub mod Handoff
pub mod Chord
pub mod Connection
use nexus_kvm.Base.{
  ℕ, zero, suc, ◌+◌, String, Bool, true, false, Option, none, some, List, [], ◌∷◌, ◌++◌,
  if◌then◌else◌, find_if, keep_if, holds, not, str_dec,
}
use nexus_kvm.Base.Int.{ℤ}
use nexus_kvm.Router.{Router, Key, new}

pub data RelAxis : Type 0 where
  rel_x : RelAxis
  rel_y : RelAxis
  rel_other : ℕ → RelAxis

-- The two axes that the loop writes. Events of the other axes and of tool types are only passed on.
pub data AbsAxis : Type 0 where
  abs_x abs_y : AbsAxis

pub data Event : Type 0 where
  key_event : Key → Bool → Event
  rel_event : RelAxis → ℤ → Event
  abs_event : AbsAxis → ℤ → Event
  other_abs : ℕ → ℤ → Event
  sync : Event

-- What the loop sends. `Ping` is sent by the task of a connection.
pub data Update : Type 0 where
  create_device : ℕ → Update
  destroy_device : ℕ → Update
  event_update : ℕ → Event → Update
  take_control : ℕ → Update

pub record Channel {ℓ} (A : Type ℓ) : Type ℓ where
  pub closed : Bool
  pub free : ℕ
  pub drains : Bool
  pub sent : List A

pub data Sent : Type 0 where
  accepted full disconnected : Sent

module _ {ℓ} {A : Type ℓ} where
  -- `try_send`, by the free places.
  unfoldable pub put : ℕ → Channel A → A → Channel A × Sent
  put zero ch a = (ch, full)
  put (suc free) ch a = (record ch { free = free; sent = ch.sent ++ a ∷ [] }, accepted)

  unfoldable pub try_send : Channel A → A → Channel A × Sent
  unfolding put
  try_send ch a = if ch.closed then (ch, disconnected) else put ch.free ch a

  -- `timeout(20 ms, send)` after `Full`: true if the value went in before the time was up.
  unfoldable pub send_timeout : Channel A → A → Channel A × Bool
  send_timeout ch a =
      if ch.drains then (record ch { sent = ch.sent ++ a ∷ [] }, true) else (ch, false)

-- The ranges of the absolute axes, if the device has both.
pub record AbsRanges : Type 0 where
  pub xmin : ℤ
  pub xmax : ℤ
  pub ymin : ℤ
  pub ymax : ℤ

pub record Device : Type 0 where
  pub id : ℕ
  pub rel : List RelAxis
  pub abs : Option AbsRanges
  pub sender : Channel Event

pub record ClientSlot : Type 0 where
  pub id : String
  pub sender : Channel Update
  pub dropped : ℕ

pub record PendingReady : Type 0 where
  pub peer : String
  pub epoch : ℕ
  pub due : ℕ

-- The variables of `run`. The `Slab`s are lists: a key of `devices` is the field `id`, and `clients`
-- is searched by peer only.
pub record Server : Type 0 where
  pub devices : List Device
  pub clients : List ClientSlot
  pub router : Router
  pub pressed_keys : List Key
  pub chord_active : Bool
  pub pending_ready : Option PendingReady
  pub confirmed_epoch : ℕ

-- `clients.iter().find(|(_, c)| c.id == dest)`
unfoldable pub find_client : String → List ClientSlot → Option ClientSlot
find_client dest = find_if (λ c. holds (str_dec c.id dest))

-- `clients.retain(|_, c| c.id != id)`
unfoldable pub drop_client : String → List ClientSlot → List ClientSlot
drop_client id = keep_if (λ c. not (holds (str_dec c.id id)))

-- A change of the slot of a peer.
unfoldable pub set_client : ClientSlot → List ClientSlot → List ClientSlot
set_client slot [] = []
set_client slot (c ∷ cs) =
    let rest = c ∷ set_client slot cs in if holds (str_dec c.id slot.id) then slot ∷ cs else rest

-- The state in which `run` starts.
unfoldable pub start : Server
start = record {
  devices = [];
  clients = [];
  router = new;
  pressed_keys = [];
  chord_active = false;
  pending_ready = none;
  confirmed_epoch = 0;
}
