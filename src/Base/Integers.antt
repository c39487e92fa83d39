-- ===== src/Base/Integers.antt =====
-- Signed 64-bit values that may be negative, before the code has checked them.
use Prim.Native.Nat.{ℕ, ◌-◌, ◌^◌}
use cogg_cpp.Base.Tests.{leb, if◌then◌else◌}

-- `negsuc n` is -(n + 1).
pub data ℤ : Type 0 where
  pos : ℕ → ℤ
  negsuc : ℕ → ℤ

abbrev pub pos_part : ℤ → ℕ
pos_part (pos n) = n
pos_part (negsuc n) = 0

-- a - b, as an integer.
abbrev pub sub_ℕ : ℕ → ℕ → ℤ
sub_ℕ a b = if leb b a then pos (a - b) else negsuc (b - a - 1)

-- std::numeric_limits<std::int64_t>::max()
abbrev pub int64_max : ℕ
int64_max = 2 ^ 63 - 1
