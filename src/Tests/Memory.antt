-- ===== src/Tests/Memory.antt =====
-- Runs of the heap, of physical memory and of the loads and stores.
use wosrecomp.Base.{ℕ, ◌^◌, ◌≡◌, refl, true, List, [], ◌∷◌, arith}
use wosrecomp.Guest.Word.{bswap32}
use wosrecomp.Guest.{
  copy_out, copy_in, Mem, load_u32, store_u32, store_byte, status_success, status_invalid_parameter,
}
use wosrecomp.Guest.Laws.{load_u32-store_u32}
use wosrecomp.Heap.{
  alloc_next, commit_block, Heap, Commit, heap_base, heap_end, guest_alloc, page_alignment,
  nt_allocate_virtual_memory,
}
use wosrecomp.Heap.Blocks.{run, AllDisjoint, run-AllDisjoint, start-IsValid}
use wosrecomp.Heap.Placed.{placed_overlap}
use wosrecomp.Phys.{
  Phys, PhysBlock, physical_base, physical_end, mm_get_physical_address, physical_to_virtual,
  statistics, mm_query_statistics,
}
use wosrecomp.Phys.Bounds.{allocate-IsValid, allocate_wraps}
use wosrecomp.Heap
use wosrecomp.Phys

abbrev agrees : Commit
agrees addr size = true

abbrev zeros : Mem
zeros a = 0

abbrev calls : List (Commit × ℕ)
calls = (agrees, 0x1234) ∷ (agrees, 0) ∷ (agrees, 0x20000) ∷ []

run-AllDisjoint_example :
    AllDisjoint (run Heap.start calls (2 ^ 12)).0
    × Heap.Blocks.Ascending heap_base heap_end (run Heap.start calls (2 ^ 12)).0
run-AllDisjoint_example =
    run-AllDisjoint 12 20 refl (omega arith) (omega arith) Heap.start calls start-IsValid

placed_overlap_example :
    let placed = guest_alloc agrees Heap.start 0x4000_0000 0x3000 0x1000 in
    (placed.0 ≡ 0x4000_0000) × ((guest_alloc agrees placed.1 0 0x100 0x1000).0 ≡ 0x4000_0000)
placed_overlap_example =
    placed_overlap Heap.start 0x3000 0x100 start-IsValid (omega arith) (omega arith) (omega arith)
      (omega arith)

-- A base address of 0 at 0x100, and a size of 0x1800 bytes at 0x104.
abbrev asked : Mem
asked = store_u32 zeros 0x104 0x1800

abbrev no_pointer : ℕ
no_pointer = 0

no_pointer-fails :
    (nt_allocate_virtual_memory agrees zeros Heap.start 0 0x104 0).0 ≡ status_invalid_parameter
unfolding nt_allocate_virtual_memory
no_pointer-fails = refl

page_of_4k : page_alignment 0 ≡ 2 ^ 12
unfolding page_alignment
page_of_4k = refl

asked_anywhere : load_u32 asked 0x100 ≡ 0
unfolding load_u32 store_u32 copy_out copy_in store_byte bswap32
asked_anywhere = refl

asked_size : load_u32 asked 0x104 ≡ 0x1800
asked_size = load_u32-store_u32 zeros 0x104 0x1800

asked_succeeds :
    (nt_allocate_virtual_memory agrees asked Heap.start 0x100 0x104 0).0 ≡ status_success
unfolding nt_allocate_virtual_memory guest_alloc alloc_next commit_block page_alignment load_u32
    store_u32 copy_out copy_in store_byte bswap32
asked_succeeds = refl

abbrev long_enough : Mem
long_enough = store_u32 zeros 0x1000 0x68
