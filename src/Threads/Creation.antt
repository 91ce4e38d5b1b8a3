-- ===== src/Threads/Creation.antt =====
-- What ExCreateThread hands out.
use wosrecomp.Base.{
  ℕ, ◌+◌, ◌≤◌, ◌≡◌, ◌≢◌, refl, ap, ◌∙◌, some, arith, ltb, if◌then◌else◌, Bool-cases, inl, inr, ◌==◌,
  ◌↔◌, ◌%◌, false, max, length, u32,
}
use wosrecomp.Guest.{status_success}
use wosrecomp.Heap.{Heap, heap_end, Commit, guest_alloc}
use wosrecomp.Heap.Bounds.{
  IsValid, IsCommitted, IsPlaced, guest_alloc-IsPlaced, guest_alloc-IsValid,
}
use wosrecomp.Objects.{Objects, thread, object_from_any, register_object}
use wosrecomp.Objects.Handles.{IsRegistry, IsRegistry-later}
use wosrecomp.Objects.Named.{register_object-names}
use wosrecomp.Sync.{Kernel, store_out}
use wosrecomp.Threads.{Thread, entry_registers}
use wosrecomp.Threads.Calls.{
  thread_body, thread_named, thread_at, least_stack, new_thread, ex_create_thread,
}

-- The handle of a thread that was just registered names it.
registered-named :
    (commit : Commit) (os : Objects) (h : Heap) (t : Thread)
    → IsRegistry os h
    → (register_object commit os h (thread t)).0 ≢ 0
    → let r = register_object commit os h (thread t) in
      (thread_named r.1 (object_from_any r.1 os.next_handle) ≡ some (length os.store, t))
      × (h.next ≤ r.2.next)
unfolding thread_named thread_body
registered-named commit os h t v done =
    let (_, any, here, later) = register_object-names commit os h (thread t) v done in
    let r = register_object commit os h (thread t) in
    (ap (thread_named r.1) any ∙ ap (thread_body (length os.store)) here, later)

first_r1-lem :
    (addr context stack_base size id flags pcr : ℕ)
    → least_stack ≤ size
    → stack_base + size ≤ heap_end
    → (entry_registers (new_thread addr context stack_base size id flags) pcr).r1 + 0x100
      ≡ stack_base + size
unfolding entry_registers new_thread
first_r1-lem addr context stack_base size id flags pcr large fits = omega arith

module _ (commit : Commit) (k : Kernel)
    (handle_out stack_size thread_id_out start_address start_context flags : ℕ)
    (v : IsRegistry k.objects k.heap) where
  abbrev pub result : ℕ × Kernel
  result =
      ex_create_thread commit k handle_out stack_size thread_id_out start_address start_context
        flags

  abbrev pub size : ℕ
  size = if ltb stack_size least_stack then least_stack else stack_size

  unfoldable stack : ℕ × Heap
  stack = guest_alloc commit k.heap 0 size 0x10000

  stack_later : IsValid stack.1 × (k.heap.next ≤ stack.1.next)
  unfolding stack
  stack_later =
      guest_alloc-IsValid 16 16 refl (omega arith) (omega arith) commit k.heap 0 size v.heap

  stack-IsPlaced :
      stack.0 ≢ 0 → IsPlaced 16 16 refl (omega arith) (omega arith) commit k.heap size stack
  unfolding stack
  stack-IsPlaced =
      guest_alloc-IsPlaced 16 16 refl (omega arith) (omega arith) commit k.heap size v.heap

  -- The thread that the next handle names, and its stack: at least 64 KiB between the old and the
  -- new bump pointer, committed whole, with the first stack pointer 256 bytes below its end.
  pub record IsCreated (k' : Kernel) (t : Thread) : Type 0 where
    pub named : thread_at k' k.objects.next_handle ≡ some (length k.objects.store, t)
    pub entry : t.entry_point ≡ start_address
    pub context : t.start_context ≡ start_context
    pub number : t.thread_id ≡ k.next_thread_id
    pub suspended : (t.released ≡ false) ↔ (flags % 2 ≡ 1)
    pub not_started : t.started ≡ false
    pub not_finished : t.finished ≡ false
    pub asked : max stack_size least_stack ≡ t.stack_size
    pub above : k.heap.next ≤ t.stack_base
    pub below : t.stack_base + t.stack_size ≤ k'.heap.next
    pub committed : IsCommitted commit t.stack_base t.stack_size
    pub first_r1 : (pcr : ℕ) → (entry_registers t pcr).r1 + 0x100 ≡ t.stack_base + t.stack_size

  unfoldable made : Thread
  made = new_thread start_address start_context stack.0 size k.next_thread_id flags

  unfoldable registered : ℕ × Objects × Heap
  registered = register_object commit k.objects stack.1 (thread made)

  abbrev last : Kernel
  last = record k {
    heap = registered.2;
    objects = registered.1;
    next_thread_id = u32 (k.next_thread_id + 1);
  }

  result-eq' :
      result.0 ≡ status_success
      → (stack.0 ≢ 0)
        × (registered.0 ≢ 0)
        × (result.1
            ≡ store_out (store_out last handle_out registered.0) thread_id_out k.next_thread_id)
  unfolding ex_create_thread stack made registered
  result-eq' done = ground (arith, done)

  store_out-at :
      (k' : Kernel) (out value ptr : ℕ)
      → (thread_at (store_out k' out value) ptr ≡ thread_at k' ptr)
        × ((store_out k' out value).heap.next ≡ k'.heap.next)
  unfolding store_out thread_at
  store_out-at k' out value ptr = elim (Bool-cases (out == 0)) [
    | inl e ↦ rw e (refl, refl)
    | inr e ↦ rw e (refl, refl)
  ]

  stored-at :
      (ptr : ℕ)
      → (thread_at
            (store_out (store_out last handle_out registered.0) thread_id_out k.next_thread_id)
            ptr
          ≡ thread_named registered.1 (object_from_any registered.1 ptr))
        × ((store_out
              (store_out last handle_out registered.0)
              thread_id_out
              k.next_thread_id).heap.next
            ≡ registered.2.next)
  unfolding thread_at
  stored-at ptr =
      let inner = store_out-at last handle_out registered.0 ptr in
      let outer =
        store_out-at (store_out last handle_out registered.0) thread_id_out k.next_thread_id ptr in
      (outer.0 ∙ inner.0, outer.1 ∙ inner.1)

  registered-at :
      registered.0 ≢ 0
      → (thread_named registered.1 (object_from_any registered.1 k.objects.next_handle)
          ≡ some (length k.objects.store, made))
        × (stack.1.next ≤ registered.2.next)
  unfolding registered
  registered-at ok =
      registered-named commit k.objects stack.1 made
        (IsRegistry-later k.objects k.heap stack.1 v stack_later) ok

  -- ExCreateThread on a registry and a heap that are in order, when it succeeds: the next handle
  -- names a thread that has the entry point, argument and number asked for, waits for its release
  -- exactly when bit 0 of the flags is set, and has neither started nor finished. Its stack has the
  -- size asked for, but at least 64 KiB; it is new and committed, and the first stack pointer lies
  -- 256 bytes below its end.
  pub ex_create_thread-IsCreated : result.0 ≡ status_success → (t : Thread) × IsCreated result.1 t
  unfolding made new_thread
  ex_create_thread-IsCreated done =
      let (nonzero, ok, e) = result-eq' done in
      let placed = stack-IsPlaced nonzero in
      let r = registered-at ok in
      let at = stored-at k.objects.next_handle in
      (
        made,
        record {
          entry = refl;
          context = refl;
          number = refl;
          suspended = ground arith;
          not_started = refl;
          not_finished = refl;
          asked = ground arith;
          named = rw e (at.0 ∙ r.0);
          above = placed.after;
          below = rw e (omega (arith, placed.before, at.1, r.1));
          committed = placed.committed;
          first_r1 = λ pcr.
              first_r1-lem start_address start_context stack.0 size k.next_thread_id flags pcr
                (ground arith) (omega (arith, placed.before, stack_later.0.below));
        },
      )
