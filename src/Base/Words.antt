-- ===== src/Base/Words.antt =====
-- Machine words: a value of w bits is a number below 2 ^ w, and what an operation cuts off is
-- written out. A negative int32_t or off_t is its bit pattern.
use Prim.Native.Nat.{ℕ, ◌-◌, ◌%◌, ◌^◌}

abbrev pub u8 : ℕ → ℕ
u8 x = x % 2 ^ 8

abbrev pub u16 : ℕ → ℕ
u16 x = x % 2 ^ 16

abbrev pub u32 : ℕ → ℕ
u32 x = x % 2 ^ 32

abbrev pub u64 : ℕ → ℕ
u64 x = x % 2 ^ 64

-- `-n` as a 32-bit pattern
abbrev pub neg32 : ℕ → ℕ
neg32 n = u32 (2 ^ 32 - u32 n)

-- `~x` of a uint32_t
abbrev pub not32 : ℕ → ℕ
not32 x = 2 ^ 32 - 1 - u32 x

-- the largest values of int32_t
abbrev pub int32_max : ℕ
int32_max = 2 ^ 31 - 1
