-- ===== src/Heap/Bounds.antt =====
-- Where `GuestAlloc` places a block: what is committed, and that the bump pointer stays in the
-- heap.
use wosrecomp.Base.{
  ℕ, ◌+◌, ◌-◌, ◌*◌, ◌/◌, ◌%◌, ◌^◌, ◌≤◌, ◌<◌, ◌≡◌, refl, ◌⊎◌, ◌≢◌, arith, ◌==◌, true, Bool-cases,
  inl, inr, u32, and_not32, and_not64, sub32, u64, ltb, if◌then◌else◌, and_not-align, round_up,
  round_up_bounds, pow-pos,
}
use native.Mathlib.Nat.{mod-eq_of_lt, pow-le-pow_right}
use wosrecomp.Heap.{
  Heap, heap_base, heap_end, Commit, commit_block, alloc_at, alloc_next, guest_alloc,
}

-- The bump pointer stays in the heap.
pub record IsValid (h : Heap) : Type 0 where
  pub above : heap_base ≤ h.next
  pub below : h.next ≤ heap_end

-- The host agreed to commit a range that holds the block.
pub record IsCommitted (commit : Commit) (addr size : ℕ) : Type 0 where
  pub begin : ℕ
  pub bytes : ℕ
  pub granted : commit begin bytes ≡ true
  pub starts : begin ≤ addr
  pub reaches : addr + size ≤ begin + bytes

commit_start-lem : (a : ℕ) → a < 2 ^ 32 → and_not32 a 0xFFFF ≡ a / 2 ^ 16 * 2 ^ 16
commit_start-lem a h = and_not-align 16 16 32 a refl h

commit_end-lem : (a : ℕ) → a < 2 ^ 64 → and_not64 (u64 a) 0xFFFF ≡ a / 2 ^ 16 * 2 ^ 16
commit_end-lem a h = rw (mod-eq_of_lt h) (and_not-align 16 48 64 a refl h)

-- A block that ends below 2 ^ 32 - 2 ^ 16 is committed whole when its address is returned.
pub commit_block-IsCommitted :
    (commit : Commit) (h : Heap) (addr size : ℕ)
    → addr + size < 2 ^ 32 - 2 ^ 16
    → (commit_block commit h addr size).0 ≢ 0
    → IsCommitted commit addr size
unfolding commit_block
commit_block-IsCommitted commit h addr size fits done =
    let start : and_not32 addr 0xFFFF ≡ addr / 2 ^ 16 * 2 ^ 16 =
      commit_start-lem addr (omega arith) in
    let end : and_not64 (u64 (addr + size + 0xFFFF)) 0xFFFF
        ≡ (addr + size + 0xFFFF) / 2 ^ 16 * 2 ^ 16 =
      commit_end-lem (addr + size + 0xFFFF) (omega arith) in
    record {
      begin = and_not32 addr 0xFFFF;
      bytes = u32 (and_not64 (u64 (addr + size + 0xFFFF)) 0xFFFF + 2 ^ 64 - and_not32 addr 0xFFFF);
      granted = ground arith;
      starts = omega (arith, start);
      reaches = omega (arith, start, end);
    }

commit_block-next :
    (commit : Commit) (h : Heap) (addr size : ℕ) → (commit_block commit h addr size).1.next ≡ h.next
unfolding commit_block
commit_block-next commit h addr size = ground arith

pub commit_block-addr :
    (commit : Commit) (h : Heap) (addr size : ℕ)
    → ((commit_block commit h addr size).0 ≡ 0) ⊎ ((commit_block commit h addr size).0 ≡ addr)
unfolding commit_block
commit_block-addr commit h addr size = ground arith

-- For alignments that are powers of two from 4 KiB to 2 GiB.
module _ (k j : ℕ) (width : j + k ≡ 32) (large : 12 ≤ k) (small : k ≤ 31) where
  pub pow_bounds : (0x1000 ≤ 2 ^ k) × (2 ^ k ≤ 2 ^ 31)
  pow_bounds =
      (pow-le-pow_right {n = 2} (omega arith) large, pow-le-pow_right {n = 2} (omega arith) small)

  -- The address that the bump pointer gives: the next multiple of the alignment.
  abbrev pub aligned : Heap → ℕ
  aligned h = (h.next + 2 ^ k - 1) / 2 ^ k * 2 ^ k

  pub alloc_next-eq :
      (commit : Commit) (h : Heap) (size : ℕ)
      → IsValid h
      → alloc_next commit h size (2 ^ k) ≡ (
          if ltb heap_end (aligned h + size)
          then (0, h)
          else commit_block commit (record h { next = aligned h + size }) (aligned h) size)
  unfolding alloc_next
  alloc_next-eq commit h size v =
      rw (round_up k j width h.next (omega (arith, pow_bounds))) (ground arith)

  -- Whatever the host refuses, the bump pointer never moves back and stays in the heap.
  alloc_next-next :
      (commit : Commit) (h : Heap) (size : ℕ)
      → IsValid h
      → IsValid (alloc_next commit h size (2 ^ k)).1
        × (h.next ≤ (alloc_next commit h size (2 ^ k)).1.next)
  alloc_next-next commit h size v = rw (alloc_next-eq commit h size v) (
      ground (
        arith,
        round_up_bounds h.next (2 ^ k),
        pow-pos k,
        commit_block-next commit (record h { next = aligned h + size }) (aligned h) size,
      ))

  -- A block that is handed out starts on its alignment, lies between the old and the new bump
  -- pointer, and has been committed whole.
  pub record IsPlaced (commit : Commit) (h : Heap) (size : ℕ) (r : ℕ × Heap) : Type 0 where
    pub after : h.next ≤ r.0
    pub before : r.0 + size ≤ r.1.next
    pub on_boundary : r.0 % 2 ^ k ≡ 0
    pub committed : IsCommitted commit r.0 size

  commit_block-IsPlaced :
      (commit : Commit) (h h' : Heap) (addr size : ℕ)
      → h.next ≤ addr
      → addr + size ≤ heap_end
      → h'.next ≡ addr + size
      → addr % 2 ^ k ≡ 0
      → (commit_block commit h' addr size).0 ≢ 0
      → IsPlaced commit h size (commit_block commit h' addr size)
  commit_block-IsPlaced commit h h' addr size above fits moved boundary done =
      let returned : (commit_block commit h' addr size).0 ≡ addr =
        ground (arith, commit_block-addr commit h' addr size) in
      record {
        after = omega (arith, returned);
        before = omega (arith, returned, commit_block-next commit h' addr size);
        on_boundary = rw returned boundary;
        committed = rw returned (commit_block-IsCommitted commit h' addr size (omega arith) done);
      }

  -- The bump allocator hands out blocks that are placed.
  alloc_next-IsPlaced :
      (commit : Commit) (h : Heap) (size : ℕ)
      → IsValid h
      → (alloc_next commit h size (2 ^ k)).0 ≢ 0
      → IsPlaced commit h size (alloc_next commit h size (2 ^ k))
  alloc_next-IsPlaced commit h size v done = elim (Bool-cases (ltb heap_end (aligned h + size))) [
    | inl over ↦ absurd (done (rw (alloc_next-eq commit h size v, over)))
    | inr fits ↦
        let here : alloc_next commit h size (2 ^ k)
            ≡ commit_block commit (record h { next = aligned h + size }) (aligned h) size =
          rw (alloc_next-eq commit h size v, fits) in
        let bounds : (h.next ≤ aligned h) × (aligned h < h.next + 2 ^ k) × (aligned h % 2 ^ k ≡ 0) =
          round_up_bounds h.next (2 ^ k) (pow-pos k) in
        rw here (
          commit_block-IsPlaced commit h (record h { next = aligned h + size }) (aligned h) size
            bounds.0 (ground arith) refl bounds.2 (rw here at done))
  ]

  -- Whatever the host refuses, an allocation at any address keeps the bump pointer in the heap and
  -- never moves it back.
  pub guest_alloc-IsValid :
      (commit : Commit) (h : Heap) (requested size : ℕ)
      → IsValid h
      → IsValid (guest_alloc commit h requested size (2 ^ k)).1
        × (h.next ≤ (guest_alloc commit h requested size (2 ^ k)).1.next)
  unfolding guest_alloc alloc_at
  guest_alloc-IsValid commit h requested size v = ground (
    arith,
    pow_bounds,
    alloc_next-next commit h size v,
    commit_block-next commit h (and_not32 requested (sub32 (2 ^ k) 1)) size,
  )

  guest_alloc-eq :
      (commit : Commit) (h : Heap) (size : ℕ)
      → guest_alloc commit h 0 size (2 ^ k)
        ≡ (if size == 0 then (0, h) else alloc_next commit h size (2 ^ k))
  unfolding guest_alloc
  guest_alloc-eq commit h size = ground (arith, pow_bounds)

  -- An allocation with no address asked for that succeeds returns a block that is placed.
  pub guest_alloc-IsPlaced :
      (commit : Commit) (h : Heap) (size : ℕ)
      → IsValid h
      → (guest_alloc commit h 0 size (2 ^ k)).0 ≢ 0
      → IsPlaced commit h size (guest_alloc commit h 0 size (2 ^ k))
  guest_alloc-IsPlaced commit h size v done = elim (Bool-cases (size == 0)) [
    | inl none_asked ↦ absurd (done (rw (guest_alloc-eq commit h size, none_asked)))
    | inr some_asked ↦
        let here : guest_alloc commit h 0 size (2 ^ k) ≡ alloc_next commit h size (2 ^ k) =
          rw (guest_alloc-eq commit h size, some_asked) in
        rw here (alloc_next-IsPlaced commit h size v (rw here at done))
  ]
