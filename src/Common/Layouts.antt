-- ===== src/Common/Layouts.antt =====
-- crates/nexus-common/src/layout.rs: the layout of two screens, and what it means for crossings.
use nexus_kvm.Base.{
  ℕ, String, ◌≡◌, ◌≢◌, true, Option, none, some, [], ◌∷◌, arith, ok, if◌then◌else◌, holds,
}
use mathlib.Core.Option
use nexus_kvm.Base.Float.{F32, f32_zero, f32_one, f32_le}
use nexus_kvm.Base.Int.{ℤ, pos, negsuc}
use nexus_kvm.Router.{local_target}
use nexus_kvm.Common.Model.{
  PeerId, Edge, left, right, top, bottom, edge_dec, opposite, Barrier, DisplayNode, Layout,
  validate,
}
use nexus_kvm.Common.Geometry.{barrier_for}

pub data PeerSide : Type 0 where
  left_side right_side top_side bottom_side : PeerSide

unfoldable pub as_edge : PeerSide → Edge
as_edge left_side = left
as_edge right_side = right
as_edge top_side = top
as_edge bottom_side = bottom

unfoldable pub from_edge : Edge → PeerSide
from_edge left = left_side
from_edge right = right_side
from_edge top = top_side
from_edge bottom = bottom_side

unfoldable pub opposite_side : PeerSide → PeerSide
unfolding as_edge from_edge opposite
opposite_side side = from_edge (opposite (as_edge side))

pub record LayoutFile : Type 0 where
  pub peer_side : PeerSide
  pub remote_peer : Option PeerId
  pub layout : Layout

-- The place of the remote screen.
unfoldable pub remote_corner : Edge → ℤ × ℤ
remote_corner right = (pos 1920, pos 0)
remote_corner left = (negsuc 1919, pos 0)
remote_corner top = (pos 0, negsuc 1079)
remote_corner bottom = (pos 0, pos 1080)

abbrev screen : PeerId → ℤ × ℤ → DisplayNode
screen peer corner = record {
  peer_id = peer;
  display_id = "main";
  x = corner.0;
  y = corner.1;
  width = 1920;
  height = 1080;
  scale = f32_one;
}

abbrev whole_edge : ℕ → PeerId → Edge → PeerId → Barrier
whole_edge id from edge destination = record {
  id = id;
  from_peer = from;
  display_id = "main";
  edge = edge;
  range_start = f32_zero;
  range_end = f32_one;
  destination = destination;
  activation_delay_ms = 0;
  cooldown_ms = 350;
}

unfoldable pub two_node_layout : PeerId → PeerId → PeerSide → Layout
unfolding as_edge remote_corner opposite
two_node_layout local remote side =
    let edge = as_edge side in
    record {
      version = 1;
      local_peer = local;
      nodes = screen local (pos 0, pos 0) ∷ screen remote (remote_corner edge) ∷ [];
      barriers = whole_edge 1 local edge remote ∷ whole_edge 2 remote (opposite edge) local ∷ [];
    }

unfoldable pub default_right : Option String → LayoutFile
default_right remote =
    let name = Option.get_or remote "peer" in
    record {
      peer_side = right_side;
      remote_peer = some name;
      layout = two_node_layout local_target name right_side;
    }

unfoldable pub with_side : LayoutFile → PeerSide → LayoutFile
with_side f side =
    let name = Option.get_or f.remote_peer "peer" in
    record f {
      peer_side = side;
      remote_peer = some name;
      layout = two_node_layout local_target name side;
    }

unfoldable pub with_remote : LayoutFile → String → LayoutFile
with_remote f remote = record f {
  remote_peer = some remote;
  layout = two_node_layout local_target remote f.peer_side;
}

-- Every layout of two screens passes the check of layouts.
pub two_node_layout-validate :
    (local remote : PeerId) (side : PeerSide) → validate (two_node_layout local remote side) ≡ ok tt
unfolding two_node_layout validate f32_le
two_node_layout-validate local remote side = ground arith

-- Crossings of the two screens are exactly these: from this machine through the side of the peer,
-- to the peer; and from the peer through the opposite edge, back to this machine. Every other edge
-- of either screen leads nowhere.
pub barrier_for-destination :
    (local remote : PeerId) (side : PeerSide) (edge : Edge) (x : F32)
    → local ≢ remote
    → f32_le f32_zero x ≡ true
    → f32_le x f32_one ≡ true
    → let layout = two_node_layout local remote side in
      (Option.map (λ b. b.destination) (barrier_for layout local "main" edge x)
        ≡ (if holds (edge_dec (as_edge side) edge) then some remote else none))
      × (Option.map (λ b. b.destination) (barrier_for layout remote "main" edge x)
          ≡ (if holds (edge_dec (opposite (as_edge side)) edge) then some local else none))
unfolding two_node_layout barrier_for
barrier_for-destination local remote side edge x apart lo hi = ground arith
