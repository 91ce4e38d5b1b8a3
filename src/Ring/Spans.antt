-- ===== src/Ring/Spans.antt =====
-- Which words of the ring the command processor runs.
use wosrecomp.Base.{ℕ, ◌+◌, ◌*◌, ◌^◌, ◌≤◌, ◌<◌, ◌≡◌, ◌⊎◌, ◌≢◌, ◌↔◌, List, [], ◌∷◌, arith}
use wosrecomp.Phys.{Phys}
use wosrecomp.Packets.{Gpu}
use wosrecomp.Ring.{Ring, max_dwords, next_capacity, spans, execute_spans, consume_ring}
use wosrecomp.Ring.Growth.{known, next_capacity-grows, next_capacity-fits, next_capacity-grows}

-- The index reached lies in the ring, as it was last seen.
abbrev pub InRing : Ring → Type 0
InRing r = r.consumed ≤ known r

-- The ring lies in one physical block.
abbrev pub FitsBlock : Phys → Ring → Type 0
FitsBlock p r = (0 < known r) × (known r ≤ max_dwords p r.virt)

-- The address of a word of one of the runs.
abbrev pub Visits : List (ℕ × ℕ) → ℕ → Type 0
Visits [] a = ⊥
Visits ((buffer, dwords) ∷ rest) a = ((buffer ≤ a) × (a < buffer + dwords * 4)) ⊎ Visits rest a

-- Some words are pending at the addresses from `consumed` to `wptr`, around the end of the ring.
abbrev pub Pending : ℕ → ℕ → ℕ → ℕ → ℕ → Type 0
Pending ring capacity consumed wptr a =
    ((consumed < wptr) × (ring + consumed * 4 ≤ a) × (a < ring + wptr * 4))
    ⊎ ((wptr ≤ consumed)
        × (((ring + consumed * 4 ≤ a) × (a < ring + capacity * 4))
            ⊎ ((ring ≤ a) × (a < ring + wptr * 4))))

-- For two indices up to the capacity of a ring that ends in the 32-bit range, the runs visit the
-- pending words and no others.
pub spans-Visits :
    (ring capacity consumed wptr a : ℕ)
    → consumed ≤ capacity
    → wptr ≤ capacity
    → ring + capacity * 4 < 2 ^ 32
    → Visits (spans ring capacity consumed wptr) a ↔ Pending ring capacity consumed wptr a
unfolding spans
spans-Visits ring capacity consumed wptr a in_ring below fits = ground arith

-- Unlimited, or in one physical block.
abbrev pub Limited : Phys → Ring → Type 0
Limited p r = (max_dwords p r.virt ≡ 0) ⊎ FitsBlock p r

module _ (p : Phys) (r : Ring) (g : Gpu) (wptr : ℕ) where
  next_capacity-known : Limited p r → known r ≤ next_capacity p r wptr
  next_capacity-known l = next_capacity-grows p r wptr (ground arith)

  -- If the index lies in the ring, and the ring in its physical block or in no known one, both
  -- hold again after every call.
  pub consume_ring-InRing :
      InRing r
      → Limited p r
      → InRing (consume_ring p r g wptr).0 × Limited p (consume_ring p r g wptr).0
  unfolding consume_ring
  consume_ring-InRing h l = ground (arith, next_capacity-known, next_capacity-fits p r wptr)

  -- What it runs are the pending words of the ring.
  pub consume_ring-runs :
      (consume_ring p r g wptr).0.consumed ≢ r.consumed
      → (consume_ring p r g wptr).1
        ≡ execute_spans g (spans r.virt (consume_ring p r g wptr).0.capacity r.consumed wptr)
  unfolding consume_ring
  consume_ring-runs moved = ground arith
