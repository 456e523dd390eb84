-- ===== src/Common/Validation.antt =====
-- crates/nexus-common/src/model.rs: what `Layout::validate` accepts.
use nexus_kvm.Base.{◌≡◌, refl, ◌↔◌, true, false, List, [], ◌∷◌, arith, ok, All}
use nexus_kvm.Base.Float.{f32_zero, f32_one, f32_le, f32_lt}
use nexus_kvm.Common.Model.{
  Barrier, DisplayNode, Layout, bad_range, has_node, validate_barriers, validate,
}

-- The range lies between 0 and 1 and is not empty, and the destination has a screen.
abbrev pub IsSound : List DisplayNode → Barrier → Type 0
IsSound nodes b =
    (f32_le f32_zero b.range_start ≡ true)
    × (f32_lt b.range_start b.range_end ≡ true)
    × (f32_le b.range_end f32_one ≡ true)
    × (has_node nodes b.destination ≡ true)

good_range :
    (b : Barrier)
    → bad_range b ≡ false
    → (f32_le f32_zero b.range_start ≡ true)
      × (f32_lt b.range_start b.range_end ≡ true)
      × (f32_le b.range_end f32_one ≡ true)
unfolding bad_range f32_lt
good_range b h = ground arith

sound_range :
    (b : Barrier)
    → f32_le f32_zero b.range_start ≡ true
    → f32_lt b.range_start b.range_end ≡ true
    → f32_le b.range_end f32_one ≡ true
    → bad_range b ≡ false
unfolding bad_range f32_lt
sound_range b lo apart hi = ground arith

barriers-IsSound :
    (nodes : List DisplayNode) (bs : List Barrier)
    → validate_barriers nodes bs ≡ ok tt
    → All (IsSound nodes) bs
unfolding validate_barriers
barriers-IsSound nodes [] h = tt
barriers-IsSound nodes (b ∷ bs) h = ground (arith, good_range b, barriers-IsSound nodes bs)

barriers_complete :
    (nodes : List DisplayNode) (bs : List Barrier)
    → All (IsSound nodes) bs
    → validate_barriers nodes bs ≡ ok tt
unfolding validate_barriers
barriers_complete nodes [] h = refl
barriers_complete nodes (b ∷ bs) h =
    ground (arith, sound_range b h.0.0 h.0.1 h.0.2, barriers_complete nodes bs h.1)

-- A layout is accepted exactly when its version is 1 and each barrier covers a part of its edge that
-- is not empty and leads to a peer with a screen.
pub validate_iff :
    (l : Layout) → (validate l ≡ ok tt) ↔ ((l.version ≡ 1) × All (IsSound l.nodes) l.barriers)
unfolding validate
validate_iff l = (
  λ h. ground (arith, barriers-IsSound l.nodes l.barriers),
  λ h. ground (arith, barriers_complete l.nodes l.barriers h.1),
)
