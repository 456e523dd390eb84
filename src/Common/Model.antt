-- ===== src/Common/Model.antt =====
-- crates/nexus-common/src: model.rs, state.rs, and the data of layout.rs.
use nexus_kvm.Base.{
  ℕ, String, Bool, not, ◌&&◌, ◌||◌, Option, List, [], ◌∷◌, ◌==◌, if◌then◌else◌, holds, Result, ok,
  err, any_of, str_dec,
}
use nexus_kvm.Base.Float.{F32, f32_zero, f32_one, f32_le}
use nexus_kvm.Base.Int.{ℤ}

abbrev pub PeerId : Type 0
PeerId = String

pub data PeerStatus : Type 0 where
  connected disconnected degraded : PeerStatus

pub record Peer : Type 0 where
  pub id : PeerId
  pub name : String
  pub address : String
  pub status : PeerStatus
  pub latency_ms : Option ℕ
  pub protocol_version : ℕ

pub data Edge : Type 0 where
  left right top bottom : Edge

unfoldable pub edge_dec : Discrete Edge
edge_dec = hlevel

unfoldable pub opposite : Edge → Edge
opposite left = right
opposite right = left
opposite top = bottom
opposite bottom = top

pub record Barrier : Type 0 where
  pub id : ℕ
  pub from_peer : PeerId
  pub display_id : String
  pub edge : Edge
  pub range_start : F32
  pub range_end : F32
  pub destination : PeerId
  pub activation_delay_ms : ℕ
  pub cooldown_ms : ℕ

pub record DisplayNode : Type 0 where
  pub peer_id : PeerId
  pub display_id : String
  pub x : ℤ
  pub y : ℤ
  pub width : ℕ
  pub height : ℕ
  pub scale : F32

pub record Layout : Type 0 where
  pub version : ℕ
  pub local_peer : PeerId
  pub nodes : List DisplayNode
  pub barriers : List Barrier

-- The texts of `validate`, by what they name.
pub data LayoutError : Type 0 where
  unsupported_version : LayoutError
  invalid_range : ℕ → LayoutError
  missing_destination : PeerId → LayoutError

-- `(0.0..=1.0).contains(&x)`
unfoldable pub in_unit_range : F32 → Bool
in_unit_range x = f32_le f32_zero x && f32_le x f32_one

unfoldable pub bad_range : Barrier → Bool
unfolding in_unit_range
bad_range b =
    not (in_unit_range b.range_start)
    || not (in_unit_range b.range_end)
    || f32_le b.range_end b.range_start

-- `nodes.iter().any(|n| n.peer_id == id)`
unfoldable pub has_node : List DisplayNode → PeerId → Bool
has_node nodes id = any_of (λ n. holds (str_dec n.peer_id id)) nodes

unfoldable pub validate_barriers : List DisplayNode → List Barrier → Result (Unit {0}) LayoutError
unfolding bad_range has_node
validate_barriers nodes [] = ok tt
validate_barriers nodes (b ∷ bs) =
    let rest = validate_barriers nodes bs in
    if bad_range b
    then err (invalid_range b.id)
    else if has_node nodes b.destination
    then rest
    else err (missing_destination b.destination)

unfoldable pub validate : Layout → Result (Unit {0}) LayoutError
unfolding validate_barriers
validate l =
    if l.version == 1 then validate_barriers l.nodes l.barriers else err unsupported_version

pub record EntryPoint : Type 0 where
  pub edge : Edge
  pub normalized_position : F32
  pub inset_px : ℕ

-- `state.rs`. A `Uuid` is its number.
pub data RuntimeState : Type 0 where
  local : RuntimeState
  preparing_remote : PeerId → ℕ → RuntimeState
  remote : PeerId → ℕ → RuntimeState
  returning_local : ℕ → RuntimeState
  recovering : String → RuntimeState
  degraded : String → RuntimeState
  stopped : RuntimeState

pub record AppStatus : Type 0 where
  pub state : RuntimeState
  pub active_target : PeerId
  pub peers : List (PeerId × Peer)
  pub agent_connected : Bool
  pub portal_available : Bool
  pub emergency_shortcut : String
