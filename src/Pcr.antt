-- ===== src/Pcr.antt =====
-- The processor control region of a guest thread, WoSRecomp/kernel/pcr.cpp: the blocks that a
-- thread reads through r13, and the ticker that keeps their clocks going.
pub mod Identity
use wosrecomp.Base.{ℕ, ◌+◌, Bool, ◌||◌, if◌then◌else◌, ◌==◌, List, [], ◌∷◌, ◌++◌, u32}
use wosrecomp.Guest.{Mem, store_u32, store_words}
use wosrecomp.Heap.{Heap, Commit, guest_alloc}

abbrev pub pcr_size : ℕ
pcr_size = 0x1000

abbrev pub thread_size : ℕ
thread_size = 0x1000

abbrev pub pcr_current_thread : ℕ
pcr_current_thread = 0x100

abbrev pub thread_tick : ℕ
thread_tick = 0x058

abbrev pub thread_self_id : ℕ
thread_self_id = 0x14C

-- `CreateThreadPcr`: the block's address or 0, guest memory, the heap, and `g_threadBlocks`.
unfoldable pub create_thread_pcr : Commit → Mem → Heap → List ℕ → ℕ × Mem × Heap × List ℕ
create_thread_pcr commit m h thread_blocks =
    let (pcr, h₁) = guest_alloc commit h 0 pcr_size 0x1000 in
    let (thread, h₂) = guest_alloc commit h₁ 0 thread_size 0x1000 in
    if pcr == 0
    then (0, m, h₂, thread_blocks)
    else if thread == 0
    then (0, m, h₂, thread_blocks)
    else (
      pcr,
      store_words (store_u32 m (pcr + pcr_current_thread) thread) thread
          ((thread_tick, 0) ∷ (thread_self_id, thread) ∷ []),
      h₂,
      thread_blocks ++ thread ∷ [],
    )

-- A turn of `TickerThread`, `ms` milliseconds after its start.
unfoldable pub tick : Mem → ℕ → List ℕ → Mem
tick m ms [] = m
tick m ms (block ∷ blocks) = tick (store_u32 m (block + thread_tick) (u32 ms)) ms blocks
