-- ===== src/Prelude/Integers.antt =====
-- Signed integers, and the bounds of the machine integers.
use Prim.Native.Nat.{ℕ}

-- `pos n` is n and `negsuc n` is -(n + 1).
pub data ℤ : Type 0 where
  pos negsuc : ℕ → ℤ

abbrev pub i32_max : ℕ
i32_max = 2147483647

abbrev pub u32_max : ℕ
u32_max = 4294967295

abbrev pub i64_max : ℕ
i64_max = 9223372036854775807
