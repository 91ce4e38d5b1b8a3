-- ===== src/Pcr/Identity.antt =====
-- What a guest thread reads through r13, while the ticker runs.
use wosrecomp.Base.{
  ℕ, ◌+◌, ◌%◌, ◌^◌, ◌≤◌, ◌≡◌, ◌≢◌, ◌⊎◌, refl, ◌∙◌, List, [], ◌∷◌, ◌++◌, All, arith, u32,
}
use native.Mathlib.Nat.{mod-eq_of_lt}
use wosrecomp.Guest.{Mem, load_u32, store_u32, store_words}
use wosrecomp.Guest.Laws.{load_u32-store_u32, load_u32-store_u32_apart}
use wosrecomp.Heap.{Heap, Commit, guest_alloc, heap_end}
use wosrecomp.Heap.Bounds.{IsValid, IsPlaced, guest_alloc-IsPlaced, guest_alloc-IsValid}
use wosrecomp.Pcr.{
  pcr_size, thread_size, pcr_current_thread, thread_tick, thread_self_id, create_thread_pcr, tick,
}

module _ (commit : Commit) (m : Mem) (h : Heap) (blocks : List ℕ) (v : IsValid h) where
  abbrev pub result : ℕ × Mem × Heap × List ℕ
  result = create_thread_pcr commit m h blocks

  unfoldable pcr : ℕ × Heap
  pcr = guest_alloc commit h 0 pcr_size 0x1000

  unfoldable thread : ℕ × Heap
  thread = guest_alloc commit pcr.1 0 thread_size 0x1000

  -- A thread's own block: new, behind the old bump pointer, and named by the thread's identifier.
  pub record IsIdentified (block : ℕ) : Type 0 where
    pub listed : result.3 ≡ blocks ++ block ∷ []
    pub current : load_u32 result.1 (result.0 + pcr_current_thread) ≡ block
    pub self_id : load_u32 result.1 (block + thread_self_id) ≡ block
    pub tick_starts : load_u32 result.1 (block + thread_tick) ≡ 0
    pub pcr_new : h.next ≤ result.0
    pub apart : result.0 + pcr_size ≤ block
    pub inside : block + thread_size ≤ result.2.next

  pcr-IsValid : IsValid pcr.1 × (h.next ≤ pcr.1.next)
  unfolding pcr
  pcr-IsValid = guest_alloc-IsValid 12 20 refl (omega arith) (omega arith) commit h 0 pcr_size v

  thread-IsValid : IsValid thread.1 × (pcr.1.next ≤ thread.1.next)
  unfolding thread
  thread-IsValid =
      guest_alloc-IsValid 12 20 refl (omega arith) (omega arith) commit pcr.1 0 thread_size
        pcr-IsValid.0

  pcr-IsPlaced : pcr.0 ≢ 0 → IsPlaced 12 20 refl (omega arith) (omega arith) commit h pcr_size pcr
  unfolding pcr
  pcr-IsPlaced = guest_alloc-IsPlaced 12 20 refl (omega arith) (omega arith) commit h pcr_size v

  thread-IsPlaced :
      thread.0 ≢ 0 → IsPlaced 12 20 refl (omega arith) (omega arith) commit pcr.1 thread_size thread
  unfolding thread
  thread-IsPlaced =
      guest_alloc-IsPlaced 12 20 refl (omega arith) (omega arith) commit pcr.1 thread_size
        pcr-IsValid.0

  stored : Mem
  stored =
      store_words (store_u32 m (pcr.0 + pcr_current_thread) thread.0) thread.0
        ((thread_tick, 0) ∷ (thread_self_id, thread.0) ∷ [])

  result-eq :
      result.0 ≢ 0
      → (pcr.0 ≢ 0) × (thread.0 ≢ 0) × (result ≡ (pcr.0, stored, thread.1, blocks ++ thread.0 ∷ []))
  unfolding create_thread_pcr pcr thread stored
  result-eq done = ground arith

  stored-words :
      pcr.0 + pcr_size ≤ thread.0
      → thread.0 + thread_size ≤ heap_end
      → (load_u32 stored (pcr.0 + pcr_current_thread) ≡ thread.0)
        × (load_u32 stored (thread.0 + thread_self_id) ≡ thread.0)
        × (load_u32 stored (thread.0 + thread_tick) ≡ 0)
  unfolding stored store_words
  stored-words apart low =
      let m₁ = store_u32 m (pcr.0 + pcr_current_thread) thread.0 in
      let m₂ = store_u32 m₁ (thread.0 + thread_tick) 0 in
      let small : thread.0 % 2 ^ 32 ≡ thread.0 = mod-eq_of_lt (omega arith) in
      (
        load_u32-store_u32_apart m₂ (pcr.0 + pcr_current_thread) (thread.0 + thread_self_id)
              thread.0 (omega arith)
            ∙ load_u32-store_u32_apart m₁ (pcr.0 + pcr_current_thread) (thread.0 + thread_tick) 0
                (omega arith)
            ∙ load_u32-store_u32 m (pcr.0 + pcr_current_thread) thread.0
            ∙ small,
        load_u32-store_u32 m₂ (thread.0 + thread_self_id) thread.0 ∙ small,
        load_u32-store_u32_apart m₂ (thread.0 + thread_tick) (thread.0 + thread_self_id) thread.0
              (omega arith)
            ∙ load_u32-store_u32 m₁ (thread.0 + thread_tick) 0,
      )

  -- CreateThreadPcr on a heap that is in order, when it succeeds: r13 leads to a new thread block
  -- that carries its own address for identity, other than any address below the old bump pointer,
  -- and a clock at 0; the ticker knows the block.
  pub create_thread_pcr-IsIdentified : result.0 ≢ 0 → (block : ℕ) × IsIdentified block
  create_thread_pcr-IsIdentified done =
      let (pcr_set, thread_set, e) = result-eq done in
      let p = pcr-IsPlaced pcr_set in
      let t = thread-IsPlaced thread_set in
      let words =
        stored-words (omega (arith, p.before, t.after))
          (omega (arith, t.before, thread-IsValid.0.below)) in
      (
        thread.0,
        record {
          listed = rw e refl;
          current = rw e words.0;
          self_id = rw e words.1;
          tick_starts = rw e words.2;
          pcr_new = rw e p.after;
          apart = rw e (omega (arith, p.before, t.after));
          inside = rw e t.before;
        },
      )

-- Thread blocks below the heap's end, at least a block's size apart from one address.
abbrev pub Away : ℕ → List ℕ → Type 0
Away block blocks =
    All
      (λ b. (b + thread_size ≤ heap_end) × ((b + thread_size ≤ block) ⊎ (block + thread_size ≤ b)))
      blocks

tick-Away :
    (m : Mem) (ms : ℕ) (blocks : List ℕ) (block offset : ℕ)
    → block + thread_size ≤ heap_end
    → offset + 4 ≤ thread_size
    → Away block blocks
    → load_u32 (tick m ms blocks) (block + offset) ≡ load_u32 m (block + offset)
unfolding tick
tick-Away m ms [] block offset low inside away = refl
tick-Away m ms (b ∷ blocks) block offset low inside away =
    let m' = store_u32 m (b + thread_tick) (u32 ms) in
    tick-Away m' ms blocks block offset low inside away.1
    ∙ load_u32-store_u32_apart m (block + offset) (b + thread_tick) (u32 ms) (grind (arith, away.0))

-- A turn of the ticker over blocks that lie apart below the heap's end: this one, in any place of
-- the list, shows the milliseconds, cut to 32 bits, and keeps its identity.
pub tick-shows :
    (m : Mem) (ms : ℕ) (before after : List ℕ) (block : ℕ)
    → block + thread_size ≤ heap_end
    → Away block before
    → Away block after
    → let m' = tick m ms (before ++ block ∷ after) in
      (load_u32 m' (block + thread_tick) ≡ ms % 2 ^ 32)
      × (load_u32 m' (block + thread_self_id) ≡ load_u32 m (block + thread_self_id))
unfolding tick
tick-shows m ms [] after block low away away' =
    let m' = store_u32 m (block + thread_tick) (u32 ms) in
    (
      tick-Away m' ms after block thread_tick low (omega arith) away'
          ∙ load_u32-store_u32 m (block + thread_tick) (u32 ms)
          ∙ mod-eq_of_lt (omega arith),
      tick-Away m' ms after block thread_self_id low (omega arith) away'
          ∙ load_u32-store_u32_apart m (block + thread_self_id) (block + thread_tick) (u32 ms)
              (omega arith),
    )
tick-shows m ms (b ∷ before) after block low away away' =
    let m' = store_u32 m (b + thread_tick) (u32 ms) in
    let (shows, keeps) = tick-shows m' ms before after block low away.1 away' in
    (
      shows,
      keeps
          ∙ load_u32-store_u32_apart m (block + thread_self_id) (b + thread_tick) (u32 ms)
              (grind (arith, away.0)),
    )
