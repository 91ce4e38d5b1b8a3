-- ===== src/Heap/Placed.antt =====
-- Allocations at an address that the guest asks for, and NtAllocateVirtualMemory.
use wosrecomp.Base.{
  ℕ, ◌+◌, ◌-◌, ◌%◌, ◌^◌, ◌≤◌, ◌<◌, ◌≡◌, refl, ap, ◌∙◌, ◌⊎◌, ◌≢◌, true, arith, u32, and_not32, sub32,
  pow-pos, and_not-align, round_up, round_up_bounds,
}
use native.Mathlib.Nat.{mod-eq_of_lt}
use wosrecomp.Guest.{
  Mem, load_u32, store_u32, status_success, status_no_memory, status_invalid_parameter,
}
use wosrecomp.Guest.Laws.{load_u32-store_u32, load_u32-store_u32_apart}
use wosrecomp.Heap.{
  Heap, heap_base, heap_end, Commit, commit_block, alloc_at, alloc_next, guest_alloc,
  page_alignment, nt_allocate_virtual_memory,
}
use wosrecomp.Heap.Bounds.{IsValid, IsPlaced, guest_alloc-IsPlaced, guest_alloc-IsValid, pow_bounds}

abbrev always : Commit
always addr size = true

-- Where the bump pointer is on a page and the host commits, an allocation at the bump pointer's
-- own address is granted, and the next allocation with no address asked for, if it fits, returns
-- the same address again.
pub placed_overlap :
    (h : Heap) (size size' : ℕ)
    → IsValid h
    → h.next % 0x1000 ≡ 0
    → 0 < size
    → 0 < size'
    → h.next + size' ≤ heap_end
    → let placed = guest_alloc always h h.next size 0x1000 in
      (placed.0 ≡ h.next) × ((guest_alloc always placed.1 0 size' 0x1000).0 ≡ h.next)
unfolding guest_alloc alloc_at commit_block alloc_next
placed_overlap h size size' v page some_asked some_asked' room =
    let there : and_not32 h.next 0xFFF ≡ h.next =
      and_not-align 12 20 32 h.next refl (omega arith) ∙ (omega arith) in
    let again : and_not32 (u32 (h.next + 0x1000 + 2 ^ 32 - 1)) 0xFFF ≡ h.next =
      round_up 12 20 refl h.next (omega arith) ∙ (omega arith) in
    (ground arith, ground arith)

module _ (commit : Commit) (m : Mem) (h : Heap) (base_ptr size_ptr kind : ℕ) where
  abbrev pub result : ℕ × Mem × Heap
  result = nt_allocate_virtual_memory commit m h base_ptr size_ptr kind

  abbrev pub granted : ℕ → Heap → ℕ × Heap
  granted requested h = guest_alloc commit h requested (load_u32 m size_ptr) (page_alignment kind)

  -- When it fails, guest memory is unchanged and the status says why: a null pointer among the
  -- arguments, or no memory.
  pub nt_allocate_virtual_memory_fails :
      result.0 ≢ status_success
      → (result.1 ≡ m)
        × ((((base_ptr ≡ 0) ⊎ (size_ptr ≡ 0)) × (result.0 ≡ status_invalid_parameter))
            ⊎ (result.0 ≡ status_no_memory))
  unfolding nt_allocate_virtual_memory
  nt_allocate_virtual_memory_fails failed = ground arith

  -- What a caller that asks for no particular address is told: a block of the heap on a page of the
  -- kind asked for, and a size that is a whole number of pages and at least the size asked for.
  pub record IsGranted (m' : Mem) (h' : Heap) : Type 0 where
    pub in_heap : h.next ≤ load_u32 m' base_ptr
    pub ends : load_u32 m' base_ptr + load_u32 m size_ptr ≤ h'.next
    pub on_page : load_u32 m' base_ptr % page_alignment kind ≡ 0
    pub enough : load_u32 m size_ptr ≤ load_u32 m' size_ptr
    pub tight : load_u32 m' size_ptr < load_u32 m size_ptr + page_alignment kind
    pub whole : load_u32 m' size_ptr % page_alignment kind ≡ 0

  module _ (k j : ℕ) (width : j + k ≡ 32) (large : 12 ≤ k) (small : k ≤ 31)
      (page : page_alignment kind ≡ 2 ^ k) (v : IsValid h)
      (apart : (u32 base_ptr + 4 ≤ u32 size_ptr) ⊎ (u32 size_ptr + 4 ≤ u32 base_ptr)) where
    rounded : ℕ
    rounded = and_not32 (u32 (load_u32 m size_ptr + 2 ^ k - 1)) (2 ^ k - 1)

    fresh : ℕ × Heap
    fresh = guest_alloc commit h 0 (load_u32 m size_ptr) (2 ^ k)

    fresh-IsPlaced :
        fresh.0 ≢ 0 → IsPlaced k j width large small commit h (load_u32 m size_ptr) fresh
    unfolding fresh
    fresh-IsPlaced = guest_alloc-IsPlaced k j width large small commit h (load_u32 m size_ptr) v

    fresh-IsValid : IsValid fresh.1
    unfolding fresh
    fresh-IsValid = (guest_alloc-IsValid k j width large small commit h 0 (load_u32 m size_ptr) v).0

    result-eq :
        load_u32 m base_ptr ≡ 0
        → base_ptr ≢ 0
        → size_ptr ≢ 0
        → result.0 ≡ status_success
        → (fresh.0 ≢ 0)
          × (result ≡ (
            status_success,
            store_u32 (store_u32 m base_ptr fresh.0) size_ptr rounded,
            fresh.1,
          ))
    unfolding nt_allocate_virtual_memory rounded fresh
    result-eq anywhere base_set size_set = rw (anywhere, page) (λ done. ground arith)

    rounded-lem :
        (size : ℕ)
        → size ≤ heap_end - heap_base
        → let n = and_not32 (u32 (size + 2 ^ k - 1)) (2 ^ k - 1) in
          (size ≤ n) × (n < size + 2 ^ k) × (n % 2 ^ k ≡ 0)
    rounded-lem size bound =
        let pages = pow_bounds k j width large small in
        let sum : u32 (size + 2 ^ k - 1) ≡ u32 (size + 2 ^ k + 2 ^ 32 - 1) = omega (arith, pages) in
        let mask : 2 ^ k - 1 ≡ sub32 (2 ^ k) 1 = omega (arith, pages) in
        rw (sum, mask, round_up k j width size (omega (arith, pages)))
          (round_up_bounds size (2 ^ k) (pow-pos k))

    -- With a page kind that is a power of two from 4 KiB to 2 GiB, a valid heap, two pointers
    -- apart and no address asked for, a call that succeeds writes back a block and a size as
    -- `IsGranted` says.
    pub nt_allocate_virtual_memory-IsGranted :
        load_u32 m base_ptr ≡ 0
        → base_ptr ≢ 0
        → size_ptr ≢ 0
        → result.0 ≡ status_success
        → IsGranted result.1 result.2
    unfolding rounded
    nt_allocate_virtual_memory-IsGranted anywhere base_set size_set done =
        let (nonzero, e) = result-eq anywhere base_set size_set done in
        let placed = fresh-IsPlaced nonzero in
        let bounds = rounded-lem (load_u32 m size_ptr) (omega (arith, placed, fresh-IsValid)) in
        let written : Mem = store_u32 m base_ptr fresh.0 in
        let at_base : load_u32 result.1 base_ptr ≡ fresh.0 =
          ap (λ (r : ℕ × Mem × Heap). load_u32 r.1 base_ptr) e
          ∙ load_u32-store_u32_apart written base_ptr size_ptr rounded (grind arith)
          ∙ load_u32-store_u32 m base_ptr fresh.0
          ∙ mod-eq_of_lt (omega (arith, placed, fresh-IsValid)) in
        let at_size : load_u32 result.1 size_ptr ≡ rounded =
          ap (λ (r : ℕ × Mem × Heap). load_u32 r.1 size_ptr) e
          ∙ load_u32-store_u32 written size_ptr rounded
          ∙ mod-eq_of_lt
              (omega (arith, bounds, placed, fresh-IsValid, pow_bounds k j width large small)) in
        record {
          in_heap = rw at_base placed.after;
          ends = omega (arith, at_base, placed, ap (λ (r : ℕ × Mem × Heap). r.2.next) e);
          on_page = rw (at_base, page) placed.on_boundary;
          enough = rw at_size bounds.0;
          tight = rw (at_size, page) bounds.1;
          whole = rw (at_size, page) bounds.2;
        }
