-- ===== src/Phys.antt =====
-- Physical memory, WoSRecomp/kernel/system.cpp: MmAllocatePhysicalMemoryEx, MmFreePhysicalMemory,
-- MmGetPhysicalAddress, MmQueryStatistics and `PhysicalBlockEnd`; and the alias window of
-- WoSRecomp/kernel/video.cpp, `PhysicalToVirtual`.
pub mod Bounds
pub mod Aliases
pub mod Statistics
use wosrecomp.Base.{
  ℕ, ◌+◌, ◌-◌, ◌*◌, ◌/◌, ◌^◌, Bool, ◌&&◌, if◌then◌else◌, ltb, leb, ◌==◌, List, [], ◌∷◌, ◌++◌, u32,
  u64, and_not32, and_not64, sub32, bit_and,
}
use wosrecomp.Guest.{Mem, load_u32, store_words, status_success, status_invalid_parameter}
use wosrecomp.Heap.{Commit}

abbrev pub page_size : ℕ
page_size = 0x1000

abbrev pub total_physical_pages : ℕ
total_physical_pages = 512 * 2 ^ 20 / page_size

abbrev pub physical_base : ℕ
physical_base = 0xA000_0000

abbrev pub physical_end : ℕ
physical_end = 0xC000_0000

-- `PhysBlock`, from `begin` up to `end`.
pub record PhysBlock : Type 0 where
  pub begin : ℕ
  pub end : ℕ

-- `g_physNext`, `g_physAllocated` and `g_physBlocks`.
pub record Phys : Type 0 where
  pub next : ℕ
  pub allocated : ℕ
  pub blocks : List PhysBlock

abbrev pub start : Phys
start = record { next = physical_base; allocated = 0; blocks = [] }

-- MmAllocatePhysicalMemoryEx(r4 = size, r8 = alignment): the address, or 0.
unfoldable pub mm_allocate_physical_memory_ex : Commit → Phys → ℕ → ℕ → ℕ × Phys
mm_allocate_physical_memory_ex commit p size alignment =
    let align = if ltb alignment page_size then page_size else alignment in
    let addr = and_not32 (u32 (p.next + align + 2 ^ 32 - 1)) (sub32 align 1) in
    let end = addr + size in
    let commit_start = and_not32 addr 0xFFFF in
    let commit_end = and_not64 (u64 (end + 0xFFFF)) 0xFFFF in
    if size == 0
    then (0, p)
    else if ltb physical_end end
    then (0, p)
    else if commit commit_start (u32 (commit_end + 2 ^ 64 - commit_start))
    then (
      addr,
      record {
        next = u32 end;
        allocated = u64 (p.allocated + size);
        blocks = p.blocks ++ record { begin = addr; end = u32 end } ∷ [];
      },
    )
    else (0, p)

-- MmFreePhysicalMemory: nothing is reclaimed.
unfoldable pub mm_free_physical_memory : Phys → ℕ × Phys
mm_free_physical_memory p = (0, p)

-- MmGetPhysicalAddress: the offset in the alias window.
unfoldable pub mm_get_physical_address : ℕ → ℕ
mm_get_physical_address addr = bit_and (u32 addr) 0x1FFF_FFFF

unfoldable pub block_end : List PhysBlock → ℕ → ℕ
block_end [] addr = 0
block_end (b ∷ bs) addr = if leb b.begin addr && ltb addr b.end then b.end else block_end bs addr

-- `PhysicalBlockEnd`: the end of the first block that holds the address, or 0.
unfoldable pub physical_block_end : Phys → ℕ → ℕ
unfolding block_end
physical_block_end p addr = block_end p.blocks addr

-- `PhysicalToVirtual`: an address from 0x80000000 on is taken for an alias already.
unfoldable pub physical_to_virtual : ℕ → ℕ
physical_to_virtual physical =
    if leb 0x8000_0000 physical then physical else u32 (physical_base + physical)

-- What MmQueryStatistics writes, by offset, from the number of bytes allocated.
unfoldable pub statistics : ℕ → List (ℕ × ℕ)
statistics allocated =
    let title_total = u32 (total_physical_pages * 3 / 4) in
    let title_used = u32 (u64 (allocated + page_size - 1) / page_size) in
    let title_available = if ltb title_used title_total then title_total - title_used else 0 in
    (0x04, total_physical_pages)
    ∷ (0x08, total_physical_pages / 16)
    ∷ (0x0C, title_available)
    ∷ (0x10, u32 (title_total * page_size))
    ∷ (0x14, 0)
    ∷ (0x18, title_used)
    ∷ (0x1C, 0)
    ∷ (0x20, 16)
    ∷ (0x24, 0x1000 / 16)
    ∷ (0x28, title_used)
    ∷ (0x2C, title_used)
    ∷ (0x30, 0)
    ∷ (0x34, 0)
    ∷ (0x38, total_physical_pages / 4)
    ∷ (0x3C, total_physical_pages / 4 * page_size)
    ∷ (0x40, 0)
    ∷ (0x44, total_physical_pages / 8)
    ∷ (0x48, 0)
    ∷ (0x4C, 0)
    ∷ (0x50, 0)
    ∷ (0x54, 0)
    ∷ (0x58, 0)
    ∷ (0x5C, 0)
    ∷ (0x60, 0)
    ∷ (0x64, total_physical_pages - 1)
    ∷ []

-- MmQueryStatistics(r3 = statistics): the status and the memory.
unfoldable pub mm_query_statistics : Phys → Mem → ℕ → ℕ × Mem
mm_query_statistics p m stats =
    if stats == 0
    then (status_invalid_parameter, m)
    else if ltb (load_u32 m stats) 0x68
    then (0xC000_0004, m)
    else (status_success, store_words m stats (statistics p.allocated))
