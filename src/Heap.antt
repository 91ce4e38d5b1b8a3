-- ===== src/Heap.antt =====
-- The guest heap, WoSRecomp/kernel/memory.cpp: the bump allocator `GuestAlloc` and the imports
-- NtAllocateVirtualMemory and NtFreeVirtualMemory.
-- Whether the host can commit a range (`VirtualAlloc`, `mprotect`) is an argument of each call.
pub mod Blocks
pub mod Bounds
pub mod Placed
use wosrecomp.Base.{
  ℕ, ◌+◌, ◌-◌, ◌^◌, Bool, ◌||◌, if◌then◌else◌, ltb, ◌==◌, u32, u64, and_not32, and_not64, sub32,
  bit_and,
}
use wosrecomp.Guest.{
  Mem, load_u32, store_u32, status_success, status_no_memory, status_invalid_parameter,
}

abbrev pub heap_base : ℕ
heap_base = 0x4000_0000

abbrev pub heap_end : ℕ
heap_end = 0x7F00_0000

-- `g_next`, `g_totalAllocated` and `g_allocCount`.
pub record Heap : Type 0 where
  pub next : ℕ
  pub total_allocated : ℕ
  pub alloc_count : ℕ

abbrev pub start : Heap
start = record { next = heap_base; total_allocated = 0; alloc_count = 0 }

-- `GuestCommit`: whether the host commits `size` bytes at `addr`.
abbrev pub Commit : Type 0
Commit = ℕ → ℕ → Bool

-- The end of `GuestAlloc`: the range rounded out to 64 KiB is committed and counted.
unfoldable pub commit_block : Commit → Heap → ℕ → ℕ → ℕ × Heap
commit_block commit h addr size =
    let commit_start = and_not32 addr 0xFFFF in
    let commit_end = and_not64 (u64 (addr + size + 0xFFFF)) 0xFFFF in
    if commit commit_start (u32 (commit_end + 2 ^ 64 - commit_start))
    then (
      addr,
      record h {
        total_allocated = u64 (h.total_allocated + size);
        alloc_count = u64 (h.alloc_count + 1);
      },
    )
    else (0, h)

-- The guest's address is honoured, and the bump pointer stays.
unfoldable pub alloc_at : Commit → Heap → ℕ → ℕ → ℕ → ℕ × Heap
alloc_at commit h requested size alignment =
    commit_block commit h (and_not32 requested (sub32 alignment 1)) size

-- The bump pointer moves before the commit, which may fail.
unfoldable pub alloc_next : Commit → Heap → ℕ → ℕ → ℕ × Heap
alloc_next commit h size alignment =
    let addr = and_not32 (u32 (h.next + alignment + 2 ^ 32 - 1)) (sub32 alignment 1) in
    if ltb heap_end (addr + size)
    then (0, h)
    else commit_block commit (record h { next = u32 (addr + size) }) addr size

-- `GuestAlloc`: the address, or 0 on failure.
unfoldable pub guest_alloc : Commit → Heap → ℕ → ℕ → ℕ → ℕ × Heap
guest_alloc commit h requested size alignment =
    let align = if ltb alignment 0x1000 then 0x1000 else alignment in
    if size == 0
    then (0, h)
    else if requested == 0
    then alloc_next commit h size align
    else alloc_at commit h requested size align

-- MEM_LARGE_PAGES means 64 KiB pages.
unfoldable pub page_alignment : ℕ → ℕ
page_alignment allocation_type =
    if bit_and allocation_type 0x2000_0000 == 0 then 0x1000 else 0x10000

-- NtAllocateVirtualMemory(r3 = base address pointer, r4 = region size pointer, r5 = type): the
-- status, the memory and the heap.
unfoldable pub nt_allocate_virtual_memory : Commit → Mem → Heap → ℕ → ℕ → ℕ → ℕ × Mem × Heap
nt_allocate_virtual_memory commit m h base_address_ptr region_size_ptr allocation_type =
    let requested = load_u32 m base_address_ptr in
    let size = load_u32 m region_size_ptr in
    let alignment = page_alignment allocation_type in
    let (addr, h') = guest_alloc commit h requested size alignment in
    let granted = and_not32 (u32 (size + alignment - 1)) (alignment - 1) in
    if base_address_ptr == 0 || region_size_ptr == 0
    then (status_invalid_parameter, m, h)
    else if addr == 0
    then (status_no_memory, m, h')
    else (status_success, store_u32 (store_u32 m base_address_ptr addr) region_size_ptr granted, h')

-- NtFreeVirtualMemory: accepted and ignored.
unfoldable pub nt_free_virtual_memory : Mem → Heap → ℕ × Mem × Heap
nt_free_virtual_memory m h = (status_success, m, h)
