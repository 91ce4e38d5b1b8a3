-- ===== src/Tests/Kernel.antt =====
-- Events, handles, waits and paths.
use wosrecomp.Base.{
  ℕ, ◌+◌, ◌≤◌, ◌≡◌, ◌≢◌, refl, true, false, ◌==◌, none, some, [], ◌∷◌, ◌++◌, map, if◌then◌else◌,
  arith,
}
use wosrecomp.Guest.{load_u32, store_u32, store_byte, copy_out, copy_in, status_success}
use wosrecomp.Guest.Word.{bswap32}
use wosrecomp.Heap.{Heap, Commit, heap_base, guest_alloc, alloc_next, commit_block}
use wosrecomp.Heap
use wosrecomp.Heap.Blocks.{start-IsValid}
use wosrecomp.Events.{Event, Timeout}
use wosrecomp.Events.Runs.{set_by, poll, look, satisfied, one, satisfied-bounded}
use wosrecomp.WaitAny.{
  World, starting, trying, sleeping, Reached, start, next, looks, misses, sleeps, sets, bumps,
  set_flag, bump, with_flag, at,
}
use wosrecomp.WaitAny.Wakeups.{no_lost_wakeup}
use wosrecomp.Objects.{
  Objects, event, no_objects, register_object, object_from_handle, object_from_guest_ptr,
  object_from_any, or_else, body_at, body_of,
}
use wosrecomp.Objects.Handles.{IsRegistry, register_object-IsRegistry}
use wosrecomp.Sync.{Kernel, new_event, event_at, event_named, event_body, nt_set_event}
use wosrecomp.Sync.Waits.{wait_on_object, nt_wait_for_all_objects}
use wosrecomp.Sync.Signals.{nt_set_event-once}
use wosrecomp.Sync.Multiple.{nt_wait_for_all_objects-ignores_timeout}
use wosrecomp.Paths.{
  backslash, strip_device, strip_separators, to_slash, non_empty, after, resolve_guest_path,
}
use wosrecomp.Paths.Device.{device_path, resolve_guest_path-device}

satisfied-bounded_example :
    satisfied new_event (set_by 0 ∷ poll ∷ look (Timeout.millis 5) ∷ []) ≤ one false + 1
satisfied-bounded_example =
    satisfied-bounded new_event (set_by 0 ∷ poll ∷ look (Timeout.millis 5) ∷ []) refl

abbrev open_gate : Event
open_gate = record new_event { manual_reset = true; signalled = true }

-- One event: the waiter looks, misses it and sleeps, and then it is set.
abbrev w0 : World
w0 = record {
  signalled = λ i. false;
  manual_reset = λ i. false;
  generation = 0;
  half_set = 0;
  waiter = starting;
}

abbrev w1 : World
w1 = record w0 { waiter = trying 0 0 }

abbrev w2 : World
w2 = record w0 { waiter = trying 0 1 }

abbrev w3 : World
w3 = record w0 { waiter = sleeping 0 }

abbrev w4 : World
w4 = record w3 { signalled = λ j. if j == 0 then true else false; half_set = 1 }

abbrev w5 : World
w5 = record w4 { generation = 1; half_set = 0 }

reached_w5 : Reached 1 5 w5
unfolding set_flag bump with_flag at
reached_w5 =
    next 4 w4 w5
      (next 3 w3 w4
        (next 2 w2 w3
          (next 1 w1 w2 (next 0 w0 w1 (start w0 refl refl refl) (looks w0 refl))
            (misses w1 0 0 refl (omega arith) refl))
          (sleeps w2 0 refl))
        (sets w3 0))
      (bumps w4 (omega arith))

no_lost_wakeup_example : w5.generation ≢ 0
no_lost_wakeup_example =
    no_lost_wakeup 1 5 w5 0 0 (omega arith) reached_w5 refl refl (omega arith) refl

abbrev agrees : Commit
agrees addr size = true

empty-IsRegistry : IsRegistry no_objects Heap.start
empty-IsRegistry = record {
  heap = start-IsValid;
  handles = tt;
  low_handles = omega arith;
  pointers = tt;
}

abbrev registered : ℕ × Objects × Heap
registered = register_object agrees no_objects Heap.start (event new_event)

registered_handle : registered.0 ≡ 0x0001_0004
unfolding register_object guest_alloc alloc_next commit_block
registered_handle = refl

registered-IsRegistry : IsRegistry registered.1 registered.2
registered-IsRegistry =
    register_object-IsRegistry agrees no_objects Heap.start (event new_event) empty-IsRegistry
      (omega arith)

-- An auto-reset event behind the handle 4, which the array at 0x1000 holds.
abbrev one_event : Objects
one_event = record {
  store = record { handle = 4; guest_ptr = 0x4000_0000; body = event new_event } ∷ [];
  by_handle = (4, 0) ∷ [];
  by_guest_ptr = (0x4000_0000, 0) ∷ [];
  pseudo = [];
  next_handle = 8;
}

abbrev kernel : Kernel
kernel = record {
  mem = store_u32 (λ a. 0) 0x1000 4;
  heap = Heap.start;
  objects = one_event;
  event_count = 1;
  next_thread_id = 0x1000;
}

event_at-four : event_at kernel 4 ≡ some (0, new_event)
unfolding event_at event_named event_body object_from_any object_from_handle object_from_guest_ptr
    or_else body_at body_of
event_at-four = refl

nt_set_event-once_example :
    ((nt_set_event kernel 0 4).0 ≡ status_success)
    × ((k' k'' : Kernel) × (wait_on_object (nt_set_event kernel 0 4).1 1 4 Timeout.infinite
          ≡ some (true, k'))
        × (wait_on_object k' 1 4 (Timeout.millis 5) ≡ some (false, k'')))
nt_set_event-once_example =
    nt_set_event-once kernel 0 1 4 0 new_event Timeout.infinite 5 event_at-four refl

nothing_there : object_from_any kernel.objects 0x8200_0000 ≡ none
unfolding object_from_any object_from_handle object_from_guest_ptr or_else
nothing_there = refl

first_handle : load_u32 kernel.mem 0x1000 ≡ 4
unfolding load_u32 store_u32 copy_out copy_in store_byte bswap32
first_handle = refl

nt_wait_for_all_objects-ignores_timeout_example :
    (k' : Kernel) × (wait_on_object kernel 1 (load_u32 kernel.mem 0x1000) (Timeout.millis 5)
      ≡ some (false, k'))
    × (nt_wait_for_all_objects kernel 1 1 0x1000 (Timeout.millis 5) ≡ some (status_success, k'))
nt_wait_for_all_objects-ignores_timeout_example =
    nt_wait_for_all_objects-ignores_timeout kernel 1 0x1000 0 new_event 5 (omega arith)
      (rw first_handle event_at-four) refl

-- "game:\a"
game_path : resolve_guest_path true (103 ∷ 58 ∷ 92 ∷ 97 ∷ []) ≡ some (97 ∷ [])
unfolding resolve_guest_path strip_device after strip_separators non_empty to_slash
game_path = refl

resolve_guest_path-device_example :
    (resolve_guest_path true (device_path (72 ∷ []) (80 ∷ []) ((97 ∷ []) ++ backslash ∷ 98 ∷ []))
      ≡ non_empty (map to_slash (strip_separators (98 ∷ []))))
    × (resolve_guest_path true (device_path (72 ∷ []) (80 ∷ []) (97 ∷ [])) ≡ none)
resolve_guest_path-device_example =
    resolve_guest_path-device (72 ∷ []) (80 ∷ []) (ground arith) (ground arith) (97 ∷ []) (98 ∷ [])
      (ground arith) (ground arith)
