-- ===== src/Phys/Bounds.antt =====
-- The physical blocks handed out, and what `PhysicalBlockEnd` says of them.
use wosrecomp.Base.{
  ℕ, ◌+◌, ◌-◌, ◌*◌, ◌/◌, ◌%◌, ◌^◌, ◌≤◌, ◌<◌, ◌≡◌, refl, ◌∙◌, ◌⊎◌, inl, inr, List, [], ◌∷◌, ◌++◌,
  true, arith, u32, u64, and_not32, pow-pos, and_not-align, round_up, round_up_bounds,
}
use native.Mathlib.Nat.{pow-le-pow_right}
use wosrecomp.Heap.{Commit}
use wosrecomp.Phys.{PhysBlock, Phys, physical_base, physical_end, mm_allocate_physical_memory_ex}

-- Blocks from `lo` to `hi`, each behind the one before it.
abbrev pub Ascending : ℕ → ℕ → List PhysBlock → Type 0
Ascending lo hi [] = lo ≤ hi
Ascending lo hi (b ∷ bs) = (lo ≤ b.begin) × (b.begin ≤ b.end) × Ascending b.end hi bs

-- The blocks share no byte, and lie in the alias window below the bump pointer.
pub record IsValid (p : Phys) : Type 0 where
  pub room : p.next ≤ physical_end
  pub ordered : Ascending physical_base p.next p.blocks

Ascending-le : (lo hi : ℕ) (bs : List PhysBlock) → Ascending lo hi bs → lo ≤ hi
Ascending-le lo hi [] a = a
Ascending-le lo hi (b ∷ bs) a = omega (arith, a, Ascending-le b.end hi bs a.2)

Ascending-snoc :
    (lo hi : ℕ) (bs : List PhysBlock) (b : PhysBlock)
    → Ascending lo hi bs
    → hi ≤ b.begin
    → b.begin ≤ b.end
    → Ascending lo b.end (bs ++ b ∷ [])
Ascending-snoc lo hi [] b a h k = omega arith
Ascending-snoc lo hi (c ∷ bs) b a h k = (a.0, a.1, Ascending-snoc c.end hi bs b a.2 h k)

-- For alignments that are powers of two from 4 KiB to 1 GiB.
module _ (k j : ℕ) (width : j + k ≡ 32) (large : 12 ≤ k) (small : k ≤ 30) where
  pow_bounds : (0x1000 ≤ 2 ^ k) × (2 ^ k ≤ 2 ^ 30)
  pow_bounds =
      (pow-le-pow_right {n = 2} (omega arith) large, pow-le-pow_right {n = 2} (omega arith) small)

  abbrev aligned : Phys → ℕ
  aligned p = (p.next + 2 ^ k - 1) / 2 ^ k * 2 ^ k

  abbrev grown : Phys → ℕ → Phys
  grown p size = record {
    next = aligned p + size;
    allocated = u64 (p.allocated + size);
    blocks = p.blocks ++ record { begin = aligned p; end = aligned p + size } ∷ [];
  }

  abbrev block : Phys → ℕ → PhysBlock
  block p size = record { begin = aligned p; end = aligned p + size }

  -- A call either fails and changes nothing, or hands out the next aligned block.
  pub allocate-cases :
      (commit : Commit) (p : Phys) (size : ℕ)
      → IsValid p
      → (mm_allocate_physical_memory_ex commit p size (2 ^ k) ≡ (0, p))
        ⊎ ((0 < size)
            × (aligned p + size ≤ physical_end)
            × (mm_allocate_physical_memory_ex commit p size (2 ^ k) ≡ (aligned p, grown p size)))
  unfolding mm_allocate_physical_memory_ex
  allocate-cases commit p size v = grind (
    arith,
    pow_bounds,
    Ascending-le physical_base p.next p.blocks v.ordered,
    round_up k j width p.next (omega (arith, v, pow_bounds)),
  )

  module _ (commit : Commit) (p : Phys) (size : ℕ) (v : IsValid p) where
    abbrev pub result : ℕ × Phys
    result = mm_allocate_physical_memory_ex commit p size (2 ^ k)

    bounds : (p.next ≤ aligned p) × (aligned p < p.next + 2 ^ k) × (aligned p % 2 ^ k ≡ 0)
    bounds = round_up_bounds p.next (2 ^ k) (pow-pos k)

    grown-IsValid : aligned p + size ≤ physical_end → IsValid (grown p size)
    grown-IsValid fits = record {
      room = fits;
      ordered =
          Ascending-snoc physical_base p.next p.blocks
            (record { begin = aligned p; end = aligned p + size }) v.ordered bounds.0 (omega arith);
    }

    -- Every call keeps the blocks apart and inside the alias window.
    pub allocate-IsValid : IsValid result.1
    allocate-IsValid = elim (allocate-cases commit p size v) [
      | inl failed ↦ rw failed v
      | inr (some_asked, fits, e) ↦ rw e (grown-IsValid fits)
    ]

-- An alignment of 2 GiB wraps: with the bump pointer in the window, a size up to the window's end
-- and a host that commits, the address that is returned is 0, and the bump pointer moves to the
-- size.
pub allocate_wraps :
    (p : Phys) (size : ℕ)
    → physical_base ≤ p.next
    → p.next ≤ physical_end
    → 0 < size
    → size ≤ physical_end
    → let r = mm_allocate_physical_memory_ex (λ _ _. true) p size (2 ^ 31) in
      (r.0 ≡ 0) × (r.1.next ≡ size)
unfolding mm_allocate_physical_memory_ex
allocate_wraps p size above below some_asked fits =
    let wrapped : u32 (p.next + 2 ^ 31 + 2 ^ 32 - 1) ≡ p.next + 2 ^ 31 - 1 - 2 ^ 32 = omega arith in
    let zero_addr : and_not32 (u32 (p.next + 2 ^ 31 + 2 ^ 32 - 1)) (2 ^ 31 - 1) ≡ 0 =
      rw wrapped
        (and_not-align 31 1 32 (p.next + 2 ^ 31 - 1 - 2 ^ 32) refl (omega arith) ∙ omega arith) in
    (ground arith, ground arith)
