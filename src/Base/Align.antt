-- ===== src/Base/Align.antt =====
-- Rounding up to an alignment, `(n + alignment - 1) & ~(alignment - 1)` on `uint32_t`.
use Prim.Native.Nat.{ℕ, ◌+◌, ◌-◌, ◌*◌, ◌/◌, ◌%◌, ◌^◌, ◌≤◌, ◌<◌}
use mathlib.Core.Path.{◌≡◌}
use native.Mathlib.Nat.{div-add-mod, mod-lt, div-mul-le_self, mul-mod_left}
use native.Mathlib.Omega.{arith}
use wosrecomp.Base.Word.{u32, and_not32, sub32}
use wosrecomp.Base.Bits.{and_not-align, pow-pos}

-- `k` is the number of low bits that an alignment clears: 12 for 4 KiB, 16 for 64 KiB.
module _ (k j : ℕ) (width : j + k ≡ 32) where
  pub round_up :
      (n : ℕ)
      → n + 2 ^ k ≤ 2 ^ 32
      → and_not32 (u32 (n + 2 ^ k + 2 ^ 32 - 1)) (sub32 (2 ^ k) 1) ≡ (n + 2 ^ k - 1) / 2 ^ k * 2 ^ k
  round_up n h =
      let pos : 0 < 2 ^ k = pow-pos k in
      let sum : u32 (n + 2 ^ k + 2 ^ 32 - 1) ≡ n + 2 ^ k - 1 = omega arith in
      let mask : sub32 (2 ^ k) 1 ≡ 2 ^ k - 1 = omega arith in
      rw (sum, mask) (and_not-align k j 32 (n + 2 ^ k - 1) width (omega arith))

-- The rounded number is the least multiple of `d` from `n` on.
pub round_up_bounds :
    (n d : ℕ)
    → 0 < d
    → (n ≤ (n + d - 1) / d * d) × ((n + d - 1) / d * d < n + d) × ((n + d - 1) / d * d % d ≡ 0)
round_up_bounds n d pos = (
  omega (arith, div-add-mod (n + d - 1) d, mod-lt (n + d - 1) pos),
  omega (arith, div-mul-le_self (n + d - 1) d),
  mul-mod_left _ d,
)
