-- ===== src/Common/Geometry.antt =====
-- crates/nexus-common/src/geometry.rs. `normalize_axis` divides `f64`s and is left out.
use Prim.Native.Nat.{min, max}
use nexus_kvm.Base.{
  ℕ, ◌-◌, ◌≤◌, ◌<◌, String, ◌≡◌, Bool, true, false, ◌&&◌, Option, arith, ◌==◌, ltb, if◌then◌else◌,
  holds, find_if, str_dec, ◌⊎◌,
}
use nexus_kvm.Base.Float.{F32, f32_zero, f32_one, f32_le, f32_clamp, is_nan}
use nexus_kvm.Common.Model.{PeerId, Edge, edge_dec, opposite, Barrier, Layout, EntryPoint}

-- `clamp` of integers.
unfoldable pub clamp : ℕ → ℕ → ℕ → ℕ
clamp lo hi x = if ltb x lo then lo else if ltb hi x then hi else x

-- `scaled n len` is the integer of `(n * len as f32).round() as u32`.
unfoldable pub map_axis : (F32 → ℕ → ℕ) → F32 → ℕ → ℕ → ℕ
unfolding clamp f32_clamp
map_axis scaled normalized remote_length inset =
    let hi = remote_length - max inset 1 in
    let lo = min inset hi in
    if remote_length == 0
    then 0
    else clamp lo hi (scaled (f32_clamp normalized f32_zero f32_one) remote_length)

-- The test of `barrier_for`.
abbrev pub matches : PeerId → String → Edge → F32 → Barrier → Bool
matches peer display edge position b =
    holds (str_dec b.from_peer peer)
    && (holds (str_dec b.display_id display)
        && (holds (edge_dec b.edge edge)
            && (f32_le b.range_start position && f32_le position b.range_end)))

unfoldable pub barrier_for : Layout → PeerId → String → Edge → F32 → Option Barrier
barrier_for layout peer display edge position =
    find_if (matches peer display edge position) layout.barriers

unfoldable pub entry_for : Edge → F32 → EntryPoint
unfolding opposite
entry_for edge normalized_position = record {
  edge = opposite edge;
  normalized_position = f32_clamp normalized_position f32_zero f32_one;
  inset_px = 6;
}

-- Whatever the product of the floats is, the result lies on the remote screen, at least one pixel
-- and the inset away from the far end, and at least the inset away from the near end where the
-- screen has room for it.
pub map_axis_bounds :
    (scaled : F32 → ℕ → ℕ) (normalized : F32) (remote_length inset : ℕ)
    → 0 < remote_length
    → let p = map_axis scaled normalized remote_length inset in
      (p < remote_length)
      × (p ≤ remote_length - inset)
      × (min inset (remote_length - max inset 1) ≤ p)
unfolding map_axis
map_axis_bounds scaled normalized remote_length inset h = ground arith

-- A value that is a number is clamped into the range from 0 to 1, and kept if it lies there.
clamp_unit :
    (x : F32)
    → is_nan x ≡ false
    → (f32_le f32_zero (f32_clamp x f32_zero f32_one) ≡ true)
      × (f32_le (f32_clamp x f32_zero f32_one) f32_one ≡ true)
unfolding f32_clamp
clamp_unit x h = ground arith

in_range_kept :
    (x : F32)
    → f32_le f32_zero x ≡ true
    → f32_le x f32_one ≡ true
    → f32_clamp x f32_zero f32_one ≡ x
unfolding f32_clamp
in_range_kept x h k = ground arith

kept :
    (x : F32) → (f32_le f32_zero x && f32_le x f32_one ≡ false) ⊎ (f32_clamp x f32_zero f32_one ≡ x)
kept x = ground (arith, in_range_kept x)

opposite-opposite : (e : Edge) → opposite (opposite e) ≡ e
unfolding opposite
opposite-opposite e = ground arith

-- The entry point of a crossing: on the edge opposite to the crossed one, so that its opposite is
-- the crossed edge again, at a position in the range from 0 to 1 that is the crossing's own where
-- that lies in the range.
pub entry_for-lands :
    (edge : Edge) (x : F32)
    → is_nan x ≡ false
    → let e = entry_for edge x in
      (opposite e.edge ≡ edge)
      × (f32_le f32_zero e.normalized_position ≡ true)
      × (f32_le e.normalized_position f32_one ≡ true)
      × ((f32_le f32_zero x && f32_le x f32_one ≡ false) ⊎ (e.normalized_position ≡ x))
unfolding entry_for
entry_for-lands edge x h = let (lo, hi) = clamp_unit x h in (opposite-opposite edge, lo, hi, kept x)
