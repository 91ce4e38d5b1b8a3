-- ===== src/Objects.antt =====
-- Kernel objects and handles, WoSRecomp/kernel/object.cpp. An object stands at an index of the
-- store, which plays the part of its `shared_ptr`: the maps share it. Names and types, which are
-- for reports, are left out.
pub mod Handles
pub mod Named
use wosrecomp.Base.{
  ℕ, zero, suc, ◌+◌, ◌*◌, ◌^◌, ◌||◌, if◌then◌else◌, ◌==◌, Option, none, some, List, [], ◌∷◌, ◌++◌,
  length, get_elem?, find, put, erase, u32,
}
use wosrecomp.Heap.{Heap, Commit, guest_alloc}
use wosrecomp.Events.{Event, Mutant}
use wosrecomp.Threads.{Thread}

-- `FileObject`: `fp` names a stream of the host.
pub record FileObject : Type 0 where
  pub fp : ℕ
  pub guest_path : List ℕ
  pub host_path : List ℕ

-- `EventObject`, `MutantObject`, `ThreadObject`, `FileObject`, and the objects that only stand for
-- themselves.
pub data Body : Type 0 where
  event : Event → Body
  mutant : Mutant → Body
  thread : Thread → Body
  file : FileObject → Body
  plain : Body

-- `KernelObject`.
pub record Object : Type 0 where
  pub handle : ℕ
  pub guest_ptr : ℕ
  pub body : Body

-- `g_byHandle`, `g_byGuestPtr`, `g_pseudo` and `g_nextHandle`.
pub record Objects : Type 0 where
  pub store : List Object
  pub by_handle : List (ℕ × ℕ)
  pub by_guest_ptr : List (ℕ × ℕ)
  pub pseudo : List (ℕ × ℕ)
  pub next_handle : ℕ

abbrev pub no_objects : Objects
no_objects = record {
  store = [];
  by_handle = [];
  by_guest_ptr = [];
  pseudo = [];
  next_handle = 0x0001_0004;
}

abbrev pub object_block_size : ℕ
object_block_size = 0x100

abbrev pub current_process_handle : ℕ
current_process_handle = 0xFFFF_FFFF

abbrev pub current_thread_handle : ℕ
current_thread_handle = 0xFFFF_FFFE

-- `RegisterObject` on a new object: its handle, or 0.
unfoldable pub register_object : Commit → Objects → Heap → Body → ℕ × Objects × Heap
register_object commit os h body =
    let (guest_ptr, h') = guest_alloc commit h 0 object_block_size 0x1000 in
    let id = length os.store in
    if guest_ptr == 0 then (0, os, h') else (
      os.next_handle,
      record os {
        store =
            os.store ++ record { handle = os.next_handle; guest_ptr = guest_ptr; body = body } ∷ [];
        by_handle = put os.by_handle os.next_handle id;
        by_guest_ptr = put os.by_guest_ptr guest_ptr id;
        next_handle = u32 (os.next_handle + 4);
      },
      h',
    )

-- `RegisterObjectAt` on a new object.
unfoldable pub register_object_at : Objects → ℕ → Body → Objects
register_object_at os guest_ptr body = record os {
  store = os.store ++ record { handle = 0; guest_ptr = guest_ptr; body = body } ∷ [];
  by_guest_ptr = put os.by_guest_ptr guest_ptr (length os.store);
}

-- `ObjectFromHandle` and `ObjectFromGuestPtr`.
unfoldable pub object_from_handle : Objects → ℕ → Option ℕ
object_from_handle os handle = find os.by_handle handle

unfoldable pub object_from_guest_ptr : Objects → ℕ → Option ℕ
object_from_guest_ptr os guest_ptr = find os.by_guest_ptr guest_ptr

unfoldable pub or_else {ℓ} : {A : Type ℓ} → Option A → Option A → Option A
or_else none b = b
or_else (some a) b = some a

-- `ObjectFromAny`.
unfoldable pub object_from_any : Objects → ℕ → Option ℕ
object_from_any os handle_or_ptr =
    let ordinary =
      or_else (object_from_handle os handle_or_ptr) (object_from_guest_ptr os handle_or_ptr) in
    if handle_or_ptr == current_process_handle || handle_or_ptr == current_thread_handle
    then or_else (find os.pseudo handle_or_ptr) ordinary
    else ordinary

-- `RegisterPseudoHandle`: the object's guest address, or 0.
unfoldable pub register_pseudo_handle : Commit → Objects → Heap → ℕ → ℕ × Objects × Heap
register_pseudo_handle commit os h pseudo_handle =
    let (guest_ptr, h') = guest_alloc commit h 0 object_block_size 0x1000 in
    let id = length os.store in
    if guest_ptr == 0 then (0, os, h') else (
      guest_ptr,
      record os {
        store =
            os.store ++ record { handle = pseudo_handle; guest_ptr = guest_ptr; body = plain } ∷ [];
        by_guest_ptr = put os.by_guest_ptr guest_ptr id;
        pseudo = put os.pseudo pseudo_handle id;
      },
      h',
    )

-- `CloseHandle`: the guest pointer stays known.
unfoldable pub close_handle : Objects → ℕ → Objects
close_handle os handle = record os { by_handle = erase os.by_handle handle }

-- `LiveObjectCount`.
unfoldable pub live_object_count : Objects → ℕ
live_object_count os = length os.by_guest_ptr

-- An object's body, and its replacement in place.
unfoldable pub body_of : Option Object → Option Body
body_of none = none
body_of (some o) = some o.body

unfoldable pub body_at : Objects → ℕ → Option Body
body_at os id = body_of (get_elem? os.store id)

unfoldable pub set_body : List Object → ℕ → Body → List Object
set_body [] id body = []
set_body (o ∷ store) zero body = record o { body = body } ∷ store
set_body (o ∷ store) (suc id) body = o ∷ set_body store id body

unfoldable pub update_body : Objects → ℕ → Body → Objects
update_body os id body = record os { store = set_body os.store id body }
