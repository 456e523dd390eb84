-- ===== src/Router.antt =====
-- rkvm-master/rkvm-server/src/target.rs: the state of `TargetRouter` and its methods. A method
-- that takes `&mut self` returns the new router beside its result.
pub mod Switch
pub mod Keys
pub mod Commands
pub mod Invariant
pub mod Travel
pub mod Events
pub mod Published
pub mod Transitions
pub mod HeldKeys
pub mod Failsafe
pub mod Edges
pub mod Cycle
use nexus_kvm.Base.{
  ℕ, zero, suc, ◌+◌, ◌/◌, ◌%◌, ◌^◌, String, ◌≡◌, refl, ite, Bool, true, false, not, ◌&&◌, ◌||◌,
  Option, none, some, List, [], ◌∷◌, ◌++◌, map, ltb, leb, ◌==◌, if◌then◌else◌, holds, Result, ok,
  err, length, get_elem?, keep_if, any_of, is_empty, str_dec, ℕ_discrete,
}
use nexus_kvm.Base.Dict.{lookup, insert, remove, adjust}
use nexus_kvm.Base.Float.{F32, round_f32}
use nexus_kvm.Base.Int.{ℤ, pos, negsuc, pos_part, neg_i32}

abbrev pub local_target : String
local_target = "local"

-- A key by the code of its `Keyboard` or `Button` variant.
pub data Key : Type 0 where
  key : ℕ → Key
  button : ℕ → Key

unfoldable pub key_dec : Discrete Key
key_dec = hlevel ℕ_discrete

-- Minimum inward travel, in pixels, before a return that the peer asks for is accepted.
abbrev pub remote_return_min_px : ℕ
remote_return_min_px = 60

pub record PeerSnapshot : Type 0 where
  pub id : String
  pub address : String
  pub connected : Bool

pub record Snapshot : Type 0 where
  pub active_target : String
  pub peers : List PeerSnapshot

pub data TargetError : Type 0 where
  peer_unavailable : String → TargetError
  transition_in_progress : TargetError
  closed : TargetError

pub record PeerEntry : Type 0 where
  pub address : String
  pub connected : Bool

-- The edge by its `u8`, and the position along it.
abbrev pub Warp : Type 0
Warp = ℕ × F32

-- `remote_inward_px` is the value of the `f32`, which is a whole number and not negative.
pub record Router : Type 0 where
  pub active : String
  pub previous : String
  pub chord_changed : Bool
  pub busy : Bool
  pub order : List String
  pub peers : List (String × PeerEntry)
  pub held_keys : List (Key × String)
  pub next_transition : ℕ
  pub pending_warp : Option Warp
  pub return_edge : Option ℕ
  pub pending_local_warp : Option ℕ
  pub remote_inward_px : ℕ

unfoldable pub new : Router
new = record {
  active = local_target;
  previous = local_target;
  chord_changed = false;
  busy = false;
  order = [];
  peers = [];
  held_keys = [];
  next_transition = 0;
  pending_warp = none;
  return_edge = none;
  pending_local_warp = none;
  remote_inward_px = 0;
}

-- The text of a transition: `format!("{:016x}", n)`, by its bytes.
abbrev pub TransitionId : Type 0
TransitionId = List ℕ

unfoldable pub hex_digit : ℕ → ℕ
hex_digit d = if ltb d 10 then b'0' + d else 87 + d

-- The last `k` hexadecimal digits of `n`.
unfoldable pub hex_fixed : ℕ → ℕ → List ℕ
unfolding hex_digit
hex_fixed zero n = []
hex_fixed (suc k) n = hex_fixed k (n / 16) ++ hex_digit (n % 16) ∷ []

-- `event_target`: the destination of events while a chord is held.
unfoldable pub event_target : Router → String
event_target r = if r.chord_changed then r.previous else r.active

-- The loop of `peers`: the entries in the order of insertion.
unfoldable pub list_peers : List (String × PeerEntry) → List String → List PeerSnapshot
list_peers peers [] = []
list_peers peers (id ∷ order) =
    let rest = list_peers peers order in
    elim (lookup str_dec id peers) [
      | none ↦ rest
      | some p ↦ record { id = id; address = p.address; connected = p.connected } ∷ rest
    ]

unfoldable pub snapshot : Router → Snapshot
unfolding list_peers
snapshot r = record { active_target = r.active; peers = list_peers r.peers r.order }

-- `order.contains(id)`
abbrev pub contains : String → List String → Bool
contains id = any_of (λ x. holds (str_dec x id))

unfoldable pub insert_peer : Router → String → String → Router
insert_peer r id address = record r {
  order = if contains id r.order then r.order else r.order ++ id ∷ [];
  peers = insert str_dec id (record { address = address; connected = true }) r.peers;
}

abbrev pub drain_held : Router → Router × List (Key × String)
drain_held r = (record r { held_keys = [] }, r.held_keys)

unfoldable pub fail_local : Router → Router × List (Key × String)
fail_local r = drain_held (record r {
  previous = r.active;
  active = local_target;
  chord_changed = false;
  busy = false;
  return_edge = none;
  pending_local_warp = r.return_edge;
})

-- `order.retain(|x| x != id)`
abbrev pub without : String → List String → List String
without id = keep_if (λ x. not (holds (str_dec x id)))

unfoldable pub remove_peer : Router → String → Router × List (Key × String)
unfolding fail_local
remove_peer r id =
    let r' = record r { order = without id r.order; peers = remove str_dec id r.peers } in
    ite (str_dec r.active id) (fail_local r') (r', [])

unfoldable pub mark_disconnected : Router → String → Router × List (Key × String)
unfolding fail_local
mark_disconnected r id =
    let r' = record r { peers = adjust str_dec (λ p. record p { connected = false }) id r.peers } in
    ite (str_dec r.active id) (fail_local r') (r', [])

-- `next_transition` is a `u64`.
unfoldable pub alloc_transition : Router → Router × TransitionId
alloc_transition r =
    let n = (r.next_transition + 1) % 2 ^ 64 in (record r { next_transition = n }, hex_fixed 16 n)

abbrev pub last_transition_seq : Router → ℕ
last_transition_seq r = r.next_transition

unfoldable pub take_local_warp : Router → Router × Option ℕ
take_local_warp r = (record r { pending_local_warp = none }, r.pending_local_warp)

-- The travel of one motion away from the entry edge: the sign of the axis is by the crossed edge.
unfoldable pub inward : Option ℕ → ℤ → ℤ → ℤ
inward none dx dy = pos 0
inward (some zero) dx dy = neg_i32 dx
inward (some (suc zero)) dx dy = dx
inward (some (suc (suc zero))) dx dy = neg_i32 dy
inward (some (suc (suc (suc zero)))) dx dy = dy
inward (some (suc (suc (suc (suc e))))) dx dy = pos 0

-- `inward > 0.0` is a test of the integer, whose sign `as f32` keeps.
unfoldable pub note_remote_motion : Router → ℤ → ℤ → Router
note_remote_motion r dx dy =
    let px = pos_part (inward r.return_edge dx dy) in
    ite (str_dec r.active local_target) r (
      if ltb 0 px
      then record r { remote_inward_px = round_f32 (r.remote_inward_px + round_f32 px) }
      else r)

abbrev is_none {ℓ} : {A : Type ℓ} → Option A → Bool
is_none none = true
is_none (some a) = false

unfoldable pub peer_return_allowed : Router → Bool
peer_return_allowed r = is_none r.return_edge || leb remote_return_min_px r.remote_inward_px

unfoldable pub is_connected : List (String × PeerEntry) → String → Bool
is_connected peers id = elim (lookup str_dec id peers) [ none ↦ false | some p ↦ p.connected ]
