-- ===== src/Base/Word.antt =====
-- Unsigned machine words as native numbers: each cast or wrap is a remainder.
use Prim.Native.Nat.{ℕ, ◌+◌, ◌-◌, ◌%◌, ◌^◌, bit_and}

abbrev pub u8 : ℕ → ℕ
u8 n = n % 2 ^ 8

abbrev pub u16 : ℕ → ℕ
u16 n = n % 2 ^ 16

abbrev pub u32 : ℕ → ℕ
u32 n = n % 2 ^ 32

abbrev pub u64 : ℕ → ℕ
u64 n = n % 2 ^ 64

-- `a - b` on `uint32_t`, for b below 2 ^ 32.
abbrev pub sub32 : ℕ → ℕ → ℕ
sub32 a b = (a + 2 ^ 32 - b) % 2 ^ 32

-- `a & ~mask` on `uint32_t` and on `uint64_t`, for a mask of that width.
abbrev pub and_not32 : ℕ → ℕ → ℕ
and_not32 a mask = bit_and a (2 ^ 32 - 1 - mask)

abbrev pub and_not64 : ℕ → ℕ → ℕ
and_not64 a mask = bit_and a (2 ^ 64 - 1 - mask)
