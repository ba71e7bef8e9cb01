-- ===== src/Common/Words.antt =====
-- Unsigned words: a value is a number below 2 ^ w, and the wrap-around is written out.
use Prim.Native.Nat.{ℕ, ◌+◌, ◌-◌, ◌/◌, ◌%◌, ◌^◌}
use chamelio.Common.Tests.{ltb, leb, ◌==◌, if◌then◌else◌}
use mathlib.Core.Bool.{Bool, ◌&&◌}

abbrev pub u8 : ℕ → ℕ
u8 n = n % 2 ^ 8

abbrev pub u16 : ℕ → ℕ
u16 n = n % 2 ^ 16

abbrev pub u32 : ℕ → ℕ
u32 n = n % 2 ^ 32

abbrev pub u64 : ℕ → ℕ
u64 n = n % 2 ^ 64

-- `a + b` and `a - b` on `__u32`.
abbrev pub add32 : ℕ → ℕ → ℕ
add32 a b = (a + b) % 2 ^ 32

abbrev pub sub32 : ℕ → ℕ → ℕ
sub32 a b = (a + 2 ^ 32 - b) % 2 ^ 32

-- `(__s32) w > 0`, `(__s32) w < 0`, for the bits `w` of a `__u32`.
abbrev pub s32_positive : ℕ → Bool
s32_positive w = ltb 0 w && ltb w (2 ^ 31)

abbrev pub s32_negative : ℕ → Bool
s32_negative w = leb (2 ^ 31) w

-- `w & (1 << k)`, `w | (1 << k)` and `w & ~(1 << k)`.
abbrev pub has_bit : ℕ → ℕ → Bool
has_bit w k = w / 2 ^ k % 2 == 1

abbrev pub set_bit : ℕ → ℕ → ℕ
set_bit w k = if has_bit w k then w else w + 2 ^ k

abbrev pub clear_bit : ℕ → ℕ → ℕ
clear_bit w k = if has_bit w k then w - 2 ^ k else w
