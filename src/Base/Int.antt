-- ===== src/Base/Int.antt =====
-- `i32` as an integer: `negsuc n` is -(n + 1).
use Prim.Native.Nat.{ℕ, zero, suc, ◌+◌, ◌-◌, ◌<◌}
use mathlib.Core.Bool.{Bool}
use nexus_kvm.Base.Tests.{◌==◌, leb, if◌then◌else◌}

pub data ℤ : Type 0 where
  pos : ℕ → ℤ
  negsuc : ℕ → ℤ

abbrev pub pos_part : ℤ → ℕ
pos_part (pos n) = n
pos_part (negsuc n) = 0

abbrev pub neg_part : ℤ → ℕ
neg_part (pos n) = 0
neg_part (negsuc n) = suc n

-- The values of an `i32`.
abbrev pub InI32 : ℤ → Type 0
InI32 (pos n) = n < 0x80000000
InI32 (negsuc n) = n < 0x80000000

-- `-x` on `i32`: the least value is its own negation, as the sum wraps.
unfoldable pub neg_i32 : ℤ → ℤ
neg_i32 (pos zero) = pos 0
neg_i32 (pos (suc n)) = negsuc n
neg_i32 (negsuc n) = if n == 0x7fffffff then negsuc n else pos (suc n)

abbrev pub sub_ℕ : ℕ → ℕ → ℤ
sub_ℕ a b = if leb b a then pos (a - b) else negsuc (b - a - 1)

infixl 65 ◌+ℤ◌
unfoldable pub ◌+ℤ◌ : ℤ → ℤ → ℤ
a +ℤ b = sub_ℕ (pos_part a + pos_part b) (neg_part a + neg_part b)

-- `a <= b`
abbrev pub leb_ℤ : ℤ → ℤ → Bool
leb_ℤ a b = leb (pos_part a + neg_part b) (pos_part b + neg_part a)
