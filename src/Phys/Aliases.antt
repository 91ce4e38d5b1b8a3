-- ===== src/Phys/Aliases.antt =====
-- The two address translations of the physical window are inverse.
use wosrecomp.Base.{ℕ, ◌+◌, ◌%◌, ◌^◌, ◌≤◌, ◌<◌, ◌≡◌, arith, u32, bit_and-mask}
use wosrecomp.Phys.{physical_base, physical_end, mm_get_physical_address, physical_to_virtual}

pub mm_get_physical_address-lem : (a : ℕ) → mm_get_physical_address a ≡ u32 a % 2 ^ 29
unfolding mm_get_physical_address
mm_get_physical_address-lem a = bit_and-mask 29 (u32 a)

-- An address of the alias window that the game passes as a physical one comes back as itself, and
-- a physical address below 512 MiB keeps its offset in the window.
pub physical_to_virtual-inverse :
    (a p : ℕ)
    → physical_base ≤ a
    → a < physical_end
    → p < 2 ^ 29
    → (physical_to_virtual (mm_get_physical_address a) ≡ a)
      × (mm_get_physical_address (physical_to_virtual p) ≡ p)
      × (physical_base ≤ physical_to_virtual p)
      × (physical_to_virtual p < physical_end)
unfolding physical_to_virtual
physical_to_virtual-inverse a p low high small = (
  ground (arith, mm_get_physical_address-lem a),
  ground (arith, mm_get_physical_address-lem (physical_base + p)),
  ground arith,
  ground arith,
)
