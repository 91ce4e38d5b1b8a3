-- ===== src/Tests/Threads.antt =====
-- Critical sections, threads, pending calls and the display.
use wosrecomp.Base.{
  ℕ, ◌+◌, ◌<◌, ◌≡◌, ◌≢◌, ◌⊎◌, refl, Bool, true, false, ◌==◌, if◌then◌else◌, some, [], ◌∷◌, arith,
}
use wosrecomp.Guest.{status_success, status_timeout}
use wosrecomp.Heap.{Heap, Commit, guest_alloc, alloc_next, commit_block}
use wosrecomp.Heap
use wosrecomp.Heap.Blocks.{start-IsValid}
use wosrecomp.Events.{Timeout, lock}
use wosrecomp.Objects.{
  no_objects, register_object, thread, object_from_any, object_from_handle, object_from_guest_ptr,
  or_else, body_at, body_of,
}
use wosrecomp.Objects.Handles.{IsRegistry}
use wosrecomp.Sync.{Kernel, store_out}
use wosrecomp.Sync.Waits.{nt_wait_for_single_object, ke_wait_for_single_object}
use wosrecomp.Sections.{
  Section, Sections, new_section, set_section, name_owner, deepen, rtl_enter_critical_section,
  Phase, outside, locked, named, moves,
}
use wosrecomp.Sections
use wosrecomp.Sections.Exclusion.{Holds, inside_one, record_is_right}
use wosrecomp.Sections.Calls.{Runs, rtl_enter_critical_section-Runs}
use wosrecomp.Threads.{
  Thread, HostThread, wait_for_exit, guest_thread_starts, wait_for_release, mark_finished, waiting,
  returned, release,
}
use wosrecomp.Threads
use wosrecomp.Threads.Life.{wait_for_exit-returned}
use wosrecomp.Threads.Calls.{thread_at, thread_named, thread_body, new_thread, ex_create_thread}
use wosrecomp.Threads.Named.{unfinished_waits}
use wosrecomp.Threads.Creation.{IsCreated, ex_create_thread-IsCreated}

-- Threads name themselves by their number plus 0x1000, the main thread by 0.
abbrev ident : ℕ → ℕ
ident t = if t == 0 then 0 else 0x1000 + t

abbrev no_sections : Sections
no_sections addr = new_section

abbrev w0 : Sections.Threads
w0 = record { section = new_section; phase = λ u. outside }

abbrev held : Section
held = record { m = record { owner = 3; depth = 1 }; owner = 0; depth = 0 }

locks_held : lock new_section.m 3 ≡ some held.m
unfolding lock
locks_held = refl

w1-Reached : Sections.Reached ident 1 (moves w0 3 held locked)
w1-Reached =
    Sections.next 0 w0 (moves w0 3 held locked) Sections.start
      (Sections.locks w0 3 held.m refl locks_held)

locked_here : (moves w0 3 held locked).phase 3 ≡ locked
unfolding moves
locked_here = refl

inside_here : (moves w0 3 held locked).phase 3 ≢ outside
inside_here = λ e. ground (arith, locked_here, e)

abbrev three : ℕ
three = 3

inside_one_example : Holds (moves w0 3 held locked).section 3 × (three ≡ three)
inside_one_example =
    inside_one ident 1 (moves w0 3 held locked) three three (omega arith) w1-Reached inside_here
      inside_here

record_is_right_example :
    ((w0.section.m.depth ≡ 0) × (w0.section.owner ≡ 0) × (w0.section.depth ≡ 0))
    ⊎ ((0 < w0.section.m.depth)
        × (w0.section.owner ≡ ident w0.section.m.owner)
        × (w0.section.depth ≡ w0.section.m.depth))
record_is_right_example = record_is_right ident 0 w0 (omega arith) Sections.start refl

abbrev entered : Sections
entered =
    λ addr. if addr == 0x8200_0000 then deepen (name_owner held (ident 3)) else no_sections addr

enters : rtl_enter_critical_section no_sections 3 (ident 3) 0x8200_0000 ≡ some entered
unfolding rtl_enter_critical_section set_section lock
enters = refl

rtl_enter_critical_section-Runs_example :
    (w' : Sections.Threads) × Runs ident 3 3 w0 w'
    × (w'.section ≡ entered 0x8200_0000)
    × ((u : ℕ) → w'.phase u ≡ outside)
    × ((a : ℕ) → (a ≡ 0x8200_0000) ⊎ (entered a ≡ no_sections a))
rtl_enter_critical_section-Runs_example =
    rtl_enter_critical_section-Runs ident w0 no_sections entered 3 0x8200_0000 refl refl enters

-- A thread whose entry point was not recompiled.
abbrev idle_thread : Thread
idle_thread = new_thread 0x8200_0000 7 0x4001_0000 0x10000 0x1000 0

abbrev nothing_known : ℕ → Bool
nothing_known addr = false

abbrev ended : HostThread
ended = record { thread = mark_finished idle_thread; place = returned }

idle_starts : guest_thread_starts nothing_known idle_thread 0 ≡ some ended
unfolding guest_thread_starts wait_for_release new_thread
idle_starts = refl

ended-Reached : Threads.Reached nothing_known idle_thread ended
ended-Reached =
    Threads.next (record { thread = idle_thread; place = waiting }) ended Threads.created
      (Threads.starts (record { thread = idle_thread; place = waiting }) ended 0 refl idle_starts)

idle_unfinished : idle_thread.finished ≡ false
unfolding new_thread
idle_unfinished = refl

ended_waits : wait_for_exit ended.thread (Timeout.millis 5) ≡ some true
unfolding wait_for_exit mark_finished
ended_waits = refl

wait_for_exit-returned_example :
    (ended.place ≡ returned) × (wait_for_exit ended.thread Timeout.infinite ≡ some true)
wait_for_exit-returned_example =
    wait_for_exit-returned nothing_known idle_thread ended (Timeout.millis 5) idle_unfinished
      ended-Reached ended_waits

abbrev agrees : Commit
agrees addr size = true

abbrev fresh_kernel : Kernel
fresh_kernel = record {
  mem = λ a. 0;
  heap = Heap.start;
  objects = no_objects;
  event_count = 0;
  next_thread_id = 0x1000;
}

empty-IsRegistry : IsRegistry no_objects Heap.start
empty-IsRegistry = record {
  heap = start-IsValid;
  handles = tt;
  low_handles = omega arith;
  pointers = tt;
}

creates :
    (ex_create_thread agrees fresh_kernel 0x100 0x4000 0x104 0x8200_0000 7 1).0 ≡ status_success
unfolding ex_create_thread guest_alloc alloc_next commit_block register_object store_out
creates = refl

ex_create_thread-IsCreated_example :
    (t : Thread) × IsCreated agrees fresh_kernel 0x100 0x4000 0x104 0x8200_0000 7 1 empty-IsRegistry
      (ex_create_thread agrees fresh_kernel 0x100 0x4000 0x104 0x8200_0000 7 1).1
      t
ex_create_thread-IsCreated_example =
    ex_create_thread-IsCreated agrees fresh_kernel 0x100 0x4000 0x104 0x8200_0000 7 1
      empty-IsRegistry creates

-- The thread behind the handle 4.
abbrev one_thread : Kernel
one_thread = record fresh_kernel {
  objects = record {
    store = record { handle = 4; guest_ptr = 0x4000_0000; body = thread idle_thread } ∷ [];
    by_handle = (4, 0) ∷ [];
    by_guest_ptr = (0x4000_0000, 0) ∷ [];
    pseudo = [];
    next_handle = 8;
  };
}

thread_at-four : thread_at one_thread 4 ≡ some (0, idle_thread)
unfolding thread_at thread_named thread_body object_from_any object_from_handle
    object_from_guest_ptr or_else body_at body_of
thread_at-four = refl

unfinished_waits_example :
    (nt_wait_for_single_object one_thread 1 4 (Timeout.millis 5)
      ≡ some (status_timeout, one_thread))
    × (ke_wait_for_single_object one_thread 1 4 (Timeout.millis 5)
        ≡ some (status_success, one_thread))
unfinished_waits_example =
    unfinished_waits one_thread 4 0 idle_thread thread_at-four 1 5 idle_unfinished
