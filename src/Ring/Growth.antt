-- ===== src/Ring/Growth.antt =====
-- The capacity that the command processor settles on.
use wosrecomp.Base.{
  Bool-cases, ltb→lt, mul-pow-suc, ℕ, zero, suc, ◌*◌, ◌^◌, ◌≤◌, ◌<◌, ◌≡◌, ap, ◌⊎◌, inl, inr, ltb,
  ◌==◌, if◌then◌else◌, max, arith, u32,
}
use wosrecomp.Phys.{Phys}
use wosrecomp.Ring.{Ring, grow, max_dwords, next_capacity}

-- Doubling reaches the write pointer or 2 ^ 30, whichever comes first, with a turn for each bit.
pub grow-reaches :
    (fuel wptr grown : ℕ)
    → 0 < grown
    → 2 ^ 30 ≤ grown * 2 ^ fuel
    → (wptr ≤ grow fuel wptr grown) ⊎ (2 ^ 30 ≤ grow fuel wptr grown)
unfolding grow
grow-reaches zero wptr grown pos h = inr (omega arith)
grow-reaches (suc fuel) wptr grown pos h = elim (Bool-cases (ltb grown (2 ^ 30))) [
  | inl e ↦
      let small : grown < 2 ^ 30 = ltb→lt grown (2 ^ 30) e in
      let doubled : u32 (grown * 2) ≡ grown * 2 = omega arith in
      let scaled : grown * 2 * 2 ^ fuel ≡ grown * 2 ^ suc fuel =
        omega (arith, mul-pow-suc grown fuel) in
      let rest = grow-reaches fuel wptr (grown * 2) (omega arith) (omega (arith, scaled)) in
      ground (arith, e, rest, ap (grow fuel wptr) doubled)
  | inr e ↦ ground (arith, e)
]

-- Doubling never shrinks, and stops short of twice the write pointer.
pub grow-bounds :
    (fuel wptr grown : ℕ)
    → (grown ≤ grow fuel wptr grown) × (grow fuel wptr grown ≤ max grown (2 * wptr))
unfolding grow
grow-bounds zero wptr grown = ground arith
grow-bounds (suc fuel) wptr grown = ground (arith, grow-bounds fuel wptr (u32 (grown * 2)))

-- The capacity that a ring starts from.
abbrev pub known : Ring → ℕ
known r = if ltb r.capacity r.size then r.size else r.capacity

module _ (p : Phys) (r : Ring) (wptr : ℕ) where
  reached : let g = grow 31 wptr (if known r == 0 then 1 else known r) in (wptr ≤ g) ⊎ (2 ^ 30 ≤ g)
  reached = grow-reaches 31 wptr (if known r == 0 then 1 else known r) (ground arith) (ground arith)

  -- The capacity never outgrows the physical block that the ring lies in, if it started inside.
  pub next_capacity-fits :
      0 < known r → known r ≤ max_dwords p r.virt → next_capacity p r wptr ≤ max_dwords p r.virt
  unfolding next_capacity
  next_capacity-fits some_known h = ground arith

  -- Where no block limits it, the capacity covers every write pointer up to 2 ^ 30.
  pub next_capacity-covers : max_dwords p r.virt ≡ 0 → wptr ≤ 2 ^ 30 → wptr ≤ next_capacity p r wptr
  unfolding next_capacity
  next_capacity-covers none_known small = ground (arith, reached)

  -- With a block, the capacity covers every write pointer up to its end.
  pub next_capacity-covers_block :
      wptr ≤ 2 ^ 30 → wptr ≤ max_dwords p r.virt → wptr ≤ next_capacity p r wptr
  unfolding next_capacity
  next_capacity-covers_block small inside = ground (arith, reached)

  -- A capacity that already covers the write pointer is kept.
  pub next_capacity-keeps : wptr ≤ known r → next_capacity p r wptr ≡ known r
  unfolding next_capacity
  next_capacity-keeps h = ground arith

  -- The capacity does not shrink, where no block limits it or the block holds what is known.
  pub next_capacity-grows :
      (max_dwords p r.virt ≡ 0) ⊎ (known r ≤ max_dwords p r.virt) → known r ≤ next_capacity p r wptr
  unfolding next_capacity
  next_capacity-grows room =
      ground (arith, grow-bounds 31 wptr (if known r == 0 then 1 else known r))
