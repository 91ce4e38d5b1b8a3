-- ===== src/Objects/Handles.antt =====
-- Handles and guest pointers name the objects that they were made for.
use wosrecomp.Base.{
  Bool-cases, true, false, ℕ, ◌+◌, ◌≤◌, ◌<◌, ◌≡◌, ◌≢◌, refl, inl, inr, ◌==◌, none, some, List, [],
  ◌∷◌, ◌++◌, length, All, All-map, put, find-put_self, find-put_ne, find-erase_self, find-erase_ne,
  All-put, find_fresh, arith, u32,
}
use wosrecomp.Heap.{Heap, heap_base, Commit, guest_alloc}
use wosrecomp.Heap.Bounds.{IsValid, IsPlaced, guest_alloc-IsPlaced, guest_alloc-IsValid}
use wosrecomp.Objects.{
  Body, Objects, current_thread_handle, object_block_size, register_object, object_from_handle,
  object_from_guest_ptr, or_else, object_from_any, close_handle, live_object_count,
}

-- Keys below a bound.
abbrev pub Below : ℕ → List (ℕ × ℕ) → Type 0
Below bound m = All (λ e. e.0 < bound) m

-- Handles are below the next one, and pointers inside the part of the heap handed out so far.
pub record IsRegistry (os : Objects) (h : Heap) : Type 0 where
  pub heap : IsValid h
  pub handles : Below os.next_handle os.by_handle
  pub low_handles : os.next_handle ≤ heap_base
  pub pointers : All (λ e. (heap_base ≤ e.0) × (e.0 < h.next)) os.by_guest_ptr

-- A registry stays in order while the heap grows.
pub IsRegistry-later :
    (os : Objects) (h h' : Heap)
    → IsRegistry os h
    → IsValid h' × (h.next ≤ h'.next)
    → IsRegistry os h'
IsRegistry-later os h h' v later = record {
  heap = later.0;
  handles = v.handles;
  low_handles = v.low_handles;
  pointers =
      All-map (λ e. (heap_base ≤ e.0) × (e.0 < h.next)) (λ e. (heap_base ≤ e.0) × (e.0 < h'.next))
        os.by_guest_ptr (λ e l. (l.0, omega (arith, l.1, later.1))) v.pointers;
}

module _ (commit : Commit) (os : Objects) (h : Heap) (body : Body) (v : IsRegistry os h) where
  abbrev pub result : ℕ × Objects × Heap
  result = register_object commit os h body

  unfoldable pub fresh : ℕ × Heap
  fresh = guest_alloc commit h 0 object_block_size 0x1000

  fresh-IsPlaced :
      fresh.0 ≢ 0 → IsPlaced 12 20 refl (omega arith) (omega arith) commit h object_block_size fresh
  unfolding fresh
  fresh-IsPlaced =
      guest_alloc-IsPlaced 12 20 refl (omega arith) (omega arith) commit h object_block_size v.heap

  abbrev pub grown : Objects
  grown = record os {
    store = os.store ++ record { handle = os.next_handle; guest_ptr = fresh.0; body = body } ∷ [];
    by_handle = put os.by_handle os.next_handle (length os.store);
    by_guest_ptr = put os.by_guest_ptr fresh.0 (length os.store);
    next_handle = u32 (os.next_handle + 4);
  }

  pub result-eq : result.0 ≢ 0 → (fresh.0 ≢ 0) × (result ≡ (os.next_handle, grown, fresh.1))
  unfolding register_object fresh
  result-eq done = ground arith

  -- In a registry that is in order, the handle of a new object is new and names it; any other
  -- handle, and any pointer below the heap's bump pointer, names what it named.
  pub register_object-fresh :
      (k ptr : ℕ)
      → result.0 ≢ 0
      → k ≢ result.0
      → ptr < h.next
      → (object_from_handle result.1 result.0 ≡ some (length os.store))
        × (object_from_handle os result.0 ≡ none)
        × (object_from_handle result.1 k ≡ object_from_handle os k)
        × (object_from_guest_ptr result.1 ptr ≡ object_from_guest_ptr os ptr)
  unfolding object_from_handle object_from_guest_ptr
  register_object-fresh k ptr done other below =
      let (nonzero, e) = result-eq done in
      let placed = fresh-IsPlaced nonzero in
      rw e (
        find-put_self os.by_handle os.next_handle (length os.store),
        find_fresh os.by_handle os.next_handle v.handles,
        find-put_ne os.by_handle os.next_handle k (length os.store)
            (λ x. (rw e at other) (omega arith)),
        find-put_ne os.by_guest_ptr fresh.0 ptr (length os.store)
            (λ x. omega (arith, placed.after)),
      )

  pub heap' : IsValid fresh.1 × (h.next ≤ fresh.1.next)
  unfolding fresh
  heap' =
      guest_alloc-IsValid 12 20 refl (omega arith) (omega arith) commit h 0 object_block_size v.heap

  failed : (fresh.0 == 0) ≡ true → result ≡ (0, os, fresh.1)
  unfolding register_object fresh
  failed e = ground (arith, e)

  succeeded : (fresh.0 == 0) ≡ false → result ≡ (os.next_handle, grown, fresh.1)
  unfolding register_object fresh
  succeeded e = ground (arith, e)

  old_pointers : All (λ e. (heap_base ≤ e.0) × (e.0 < fresh.1.next)) os.by_guest_ptr
  old_pointers = (IsRegistry-later os h fresh.1 v heap').pointers

  -- Registering keeps a registry in order, as long as the next handle stays below the heap.
  pub register_object-IsRegistry : os.next_handle + 4 ≤ heap_base → IsRegistry result.1 result.2
  register_object-IsRegistry room =
      let next_one : grown.next_handle ≡ os.next_handle + 4 = omega arith in
      elim (Bool-cases (fresh.0 == 0)) [
        | inl e ↦ rw (failed e) (record {
          heap = heap'.0;
          handles = v.handles;
          low_handles = v.low_handles;
          pointers = old_pointers;
        })
        | inr e ↦ rw (succeeded e) (record {
          heap = heap'.0;
          handles =
              All-put (λ x. x.0 < grown.next_handle) os.by_handle os.next_handle (length os.store)
                (All-map (λ x. x.0 < os.next_handle) (λ x. x.0 < grown.next_handle) os.by_handle
                  (λ x l. omega (arith, l, next_one)) v.handles)
                (omega (arith, next_one));
          low_handles = omega (arith, next_one);
          pointers =
              let placed = fresh-IsPlaced (λ z. ground (arith, e, z)) in
              All-put (λ x. (heap_base ≤ x.0) × (x.0 < fresh.1.next)) os.by_guest_ptr fresh.0
                (length os.store) old_pointers
                (omega (arith, placed.after, v.heap.above), omega (arith, placed.before));
        })
      ]

-- Closing a handle makes it unknown, and leaves any other handle, any pointer and the number of
-- live objects as they were.
pub close_handle-keeps :
    (os : Objects) (handle k ptr : ℕ)
    → k ≢ handle
    → (object_from_handle (close_handle os handle) handle ≡ none)
      × (object_from_handle (close_handle os handle) k ≡ object_from_handle os k)
      × (object_from_guest_ptr (close_handle os handle) ptr ≡ object_from_guest_ptr os ptr)
      × (live_object_count (close_handle os handle) ≡ live_object_count os)
unfolding close_handle object_from_handle object_from_guest_ptr live_object_count
close_handle-keeps os handle k ptr ne = (
  find-erase_self os.by_handle handle,
  find-erase_ne os.by_handle handle k (λ e. ne (omega arith)),
  refl,
  refl,
)

-- In a registry that is in order, an address from the heap's base up to the pseudo-handles is
-- never taken for a handle: it names the object that stands there, if any.
pub object_from_any-pointer :
    (os : Objects) (h : Heap) (ptr : ℕ)
    → IsRegistry os h
    → heap_base ≤ ptr
    → ptr < current_thread_handle
    → object_from_any os ptr ≡ object_from_guest_ptr os ptr
unfolding object_from_any object_from_handle or_else
object_from_any-pointer os h ptr v above below = ground (
  arith,
  find_fresh os.by_handle ptr (
      All-map (λ e. e.0 < os.next_handle) (λ e. e.0 < ptr) os.by_handle
        (λ e l. omega (arith, l, v.low_handles)) v.handles),
)
