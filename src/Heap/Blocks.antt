-- ===== src/Heap/Blocks.antt =====
-- Histories of the guest heap: blocks handed out by the bump allocator never overlap.
use wosrecomp.Base.{
  ℕ, ◌+◌, ◌^◌, ◌≤◌, ◌≡◌, ◌⊎◌, ◌==◌, if◌then◌else◌, Bool-cases, inl, inr, List, [], ◌∷◌, All, arith,
}
use wosrecomp.Heap.{Heap, heap_base, heap_end, Commit, start, guest_alloc}
use wosrecomp.Heap.Bounds.{IsValid, guest_alloc-IsValid, guest_alloc-IsPlaced}

pub record Block : Type 0 where
  pub begin : ℕ
  pub size : ℕ

-- The blocks that a run of calls `GuestAlloc(base, 0, size, alignment)` hands out; each call comes
-- with what the host does about its commit.
pub run : Heap → List (Commit × ℕ) → ℕ → List Block × Heap
run h [] alignment = ([], h)
run h ((commit, size) ∷ calls) alignment =
    let (addr, h') = guest_alloc commit h 0 size alignment in
    let (blocks, last) = run h' calls alignment in
    if addr == 0 then (blocks, last) else (record { begin = addr; size = size } ∷ blocks, last)

-- The blocks lie between `lo` and `hi`, each behind the one before it.
abbrev pub Ascending : ℕ → ℕ → List Block → Type 0
Ascending lo hi [] = lo ≤ hi
Ascending lo hi (b ∷ bs) = (lo ≤ b.begin) × Ascending (b.begin + b.size) hi bs

Ascending-lower :
    (lo lo' hi : ℕ) (bs : List Block) → lo ≤ lo' → Ascending lo' hi bs → Ascending lo hi bs
Ascending-lower lo lo' hi [] h a = omega arith
Ascending-lower lo lo' hi (b ∷ bs) h a = (omega arith, a.1)

-- No byte is in two blocks.
abbrev pub Disjoint : Block → Block → Type 0
Disjoint a b = (a.begin + a.size ≤ b.begin) ⊎ (b.begin + b.size ≤ a.begin)

abbrev pub AllDisjoint : List Block → Type 0
AllDisjoint [] = Unit
AllDisjoint (b ∷ bs) = All (Disjoint b) bs × AllDisjoint bs

Ascending-Disjoint :
    (b : Block) (lo hi : ℕ) (bs : List Block)
    → b.begin + b.size ≤ lo
    → Ascending lo hi bs
    → All (Disjoint b) bs
Ascending-Disjoint b lo hi [] h a = tt
Ascending-Disjoint b lo hi (c ∷ bs) h a =
    (inl (omega arith), Ascending-Disjoint b (c.begin + c.size) hi bs (omega arith) a.1)

Ascending-AllDisjoint : (lo hi : ℕ) (bs : List Block) → Ascending lo hi bs → AllDisjoint bs
Ascending-AllDisjoint lo hi [] a = tt
Ascending-AllDisjoint lo hi (b ∷ bs) a = (
  Ascending-Disjoint b (b.begin + b.size) hi bs (omega arith) a.1,
  Ascending-AllDisjoint (b.begin + b.size) hi bs a.1,
)

module _ (k j : ℕ) (width : j + k ≡ 32) (large : 12 ≤ k) (small : k ≤ 31) where
  run-Ascending :
      (h : Heap) (calls : List (Commit × ℕ))
      → IsValid h
      → Ascending h.next heap_end (run h calls (2 ^ k)).0
  unfolding run
  run-Ascending h [] v = v.below
  run-Ascending h ((commit, size) ∷ calls) v =
      let r = guest_alloc commit h 0 size (2 ^ k) in
      let keep = guest_alloc-IsValid k j width large small commit h 0 size v in
      let rest = run-Ascending r.1 calls keep.0 in
      elim (Bool-cases (r.0 == 0)) [
        | inl failed ↦ rw failed (Ascending-lower h.next r.1.next heap_end _ keep.1 rest)
        | inr done ↦
            let placed =
              guest_alloc-IsPlaced k j width large small commit h size v (λ e. ground arith) in
            rw done
              (placed.after, Ascending-lower (r.0 + size) r.1.next heap_end _ placed.before rest)
      ]

  -- From a heap whose bump pointer is in it, and for an alignment that is a power of two from 4
  -- KiB to 2 GiB, the blocks that any run of bump allocations hands out share no byte and all lie
  -- in the heap, whatever sizes are asked and whichever commits the host refuses.
  pub run-AllDisjoint :
      (h : Heap) (calls : List (Commit × ℕ))
      → IsValid h
      → AllDisjoint (run h calls (2 ^ k)).0 × Ascending heap_base heap_end (run h calls (2 ^ k)).0
  run-AllDisjoint h calls v =
      let a = run-Ascending h calls v in
      (
        Ascending-AllDisjoint h.next heap_end _ a,
        Ascending-lower heap_base h.next heap_end _ v.above a,
      )

pub start-IsValid : IsValid start
start-IsValid = omega arith
