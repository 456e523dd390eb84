-- ===== src/Base/Float.antt =====
-- `f32` by its bits: the comparisons and `clamp` of Rust, and the values that are whole numbers.
use Prim.Native.Nat.{ℕ, zero, suc, ◌+◌, ◌*◌, ◌/◌, ◌%◌, ◌≤◌, ◌<◌}
use mathlib.Core.Path.{◌≡◌, refl}
use mathlib.Core.Logic.{◌⊎◌, inl, inr}
use mathlib.Core.Bool.{Bool, true, not, ◌&&◌, ◌||◌}
use native.Mathlib.Nat.{le-div_iff_mul-le, le_trans, mul-le-mul_left, mul-le-mul_right}
use native.Mathlib.Omega.{arith}
use nexus_kvm.Base.Tests.{ltb, leb, ◌==◌, if◌then◌else◌, Bool-cases}

-- The 32 bits of an IEEE 754 number: sign, 8 bits of exponent, 23 of fraction.
pub record F32 : Type 0 where
  pub bits : ℕ

abbrev pub f32_zero : F32
f32_zero = record { bits = 0 }

abbrev pub f32_one : F32
f32_one = record { bits = 0x3f800000 }

pub is_negative : F32 → Bool
is_negative x = leb 0x80000000 x.bits

unfoldable pub magnitude : F32 → ℕ
magnitude x = x.bits % 0x80000000

unfoldable pub is_nan : F32 → Bool
unfolding magnitude
is_nan x = ltb 0x7f800000 (magnitude x)

-- `x <= y`: false as soon as one side is NaN, and both zeros are equal.
unfoldable pub f32_le : F32 → F32 → Bool
unfolding is_negative is_nan magnitude
f32_le x y =
    not (is_nan x || is_nan y)
    && (if is_negative x
        then (if is_negative y then leb (magnitude y) (magnitude x) else true)
        else if is_negative y
        then magnitude x == 0 && magnitude y == 0
        else leb (magnitude x) (magnitude y))

-- `x < y`
unfoldable pub f32_lt : F32 → F32 → Bool
unfolding f32_le
f32_lt x y = f32_le x y && not (f32_le y x)

-- `x.clamp(lo, hi)`: NaN stays NaN.
unfoldable pub f32_clamp : F32 → F32 → F32 → F32
unfolding f32_lt
f32_clamp x lo hi = let y = if f32_lt x lo then lo else x in if f32_lt hi y then hi else y

-- The spacing of the values at `n`: the least power of two `u` with n < 2 ^ 24 * u, found in
-- `fuel` doublings. 104 of them reach the end of the range of `f32`.
unfoldable pub spacing : ℕ → ℕ → ℕ → ℕ
spacing zero u n = u
spacing (suc fuel) u n =
    let wider = spacing fuel (u * 2) n in if ltb n (0x1000000 * u) then u else wider

-- Rounding to a multiple of `u`, halves to the even multiple.
unfoldable pub round_to : ℕ → ℕ → ℕ
round_to u n =
    let q = n / u in
    let r = n % u in (if ltb (2 * r) u then q else if ltb u (2 * r) then q + 1 else q + q % 2) * u

-- The value of `n as f32`, and of a sum of whole numbers in `f32`.
unfoldable pub round_f32 : ℕ → ℕ
round_f32 n = round_to (spacing 104 1 n) n

rounds_to_even : round_f32 16777217 ≡ 16777216
unfolding round_f32 spacing round_to
rounds_to_even = refl

rounds_up : round_f32 16777219 ≡ 16777220
unfolding round_f32 spacing round_to
rounds_up = refl

-- What `spacing` returns: 1, or an `u` for which `n` has 24 bits or more.
abbrev IsSpacing : ℕ → ℕ → Type 0
IsSpacing n u = (u ≡ 1) ⊎ ((2 ≤ u) × (0x1000000 * u ≤ 2 * n))

spacing-IsSpacing : (fuel u n : ℕ) → IsSpacing n u → IsSpacing n (spacing fuel u n)
unfolding spacing
spacing-IsSpacing zero u n h = h
spacing-IsSpacing (suc fuel) u n h = elim (Bool-cases (ltb n (0x1000000 * u))) [
  | inl small ↦ rw small h
  | inr large ↦ rw large (spacing-IsSpacing fuel (u * 2) n (ground arith))
]

spacing_exact : (fuel n : ℕ) → n < 0x1000000 → spacing fuel 1 n ≡ 1
unfolding spacing
spacing_exact zero n h = refl
spacing_exact (suc fuel) n h = ground arith

round_to-one : (n : ℕ) → round_to 1 n ≡ n
unfolding round_to
round_to-one n = ground arith

-- Rounding goes down by less than one unit.
le-round_to : (u n : ℕ) → (n / u) * u ≤ round_to u n
unfolding round_to
le-round_to u n = grind arith

quotient_bound : (u n : ℕ) → 2 ≤ u → 0x1000000 * u ≤ 2 * n → 0x1000000 ≤ (n / u) * u
quotient_bound u n h k =
    let q : 0x800000 ≤ n / u = (le-div_iff_mul-le (omega arith)).1 (omega arith) in
    le_trans (mul-le-mul_left 0x800000 h) (mul-le-mul_right u q)

large_of_IsSpacing : (u n : ℕ) → 0x1000000 ≤ n → IsSpacing n u → 0x1000000 ≤ round_to u n
large_of_IsSpacing u n h (inl e) = rw (e, round_to-one) h
large_of_IsSpacing u n h (inr (two, k)) = omega (arith, le-round_to u n, quotient_bound u n two k)

-- Below 2 ^ 24 every whole number is a value of `f32`.
pub round_f32_exact : (n : ℕ) → n < 0x1000000 → round_f32 n ≡ n
unfolding round_f32
round_f32_exact n h = rw (spacing_exact 104 n h) (round_to-one n)

-- From 2 ^ 24 on, rounding does not fall below 2 ^ 24.
pub round_f32_large : (n : ℕ) → 0x1000000 ≤ n → 0x1000000 ≤ round_f32 n
unfolding round_f32
round_f32_large n h =
    large_of_IsSpacing (spacing 104 1 n) n h (spacing-IsSpacing 104 1 n (inl refl))
