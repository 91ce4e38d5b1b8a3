-- ===== src/Threads/Calls.antt =====
-- The imports on threads, WoSRecomp/kernel/thread.cpp. The host thread that ExCreateThread launches
-- takes its steps as in the parent module.
use wosrecomp.Base.{ℕ, ◌+◌, ◌%◌, Bool, false, if◌then◌else◌, ltb, ◌==◌, Option, none, some, u32}
use wosrecomp.Guest.{status_success, status_no_memory, status_invalid_handle}
use wosrecomp.Heap.{Commit, guest_alloc}
use wosrecomp.Events.{Timeout}
use wosrecomp.Objects.{
  Body, Objects, event, mutant, thread, file, plain, object_from_any, body_at, register_object,
}
use wosrecomp.Sync.{Kernel, replace, store_out}
use wosrecomp.Threads.{Thread, release, wait_for_exit}

-- `dynamic_cast<ThreadObject*>` of what a handle or pointer names, with where it stands.
unfoldable pub thread_body : ℕ → Option Body → Option (ℕ × Thread)
thread_body id none = none
thread_body id (some (event e)) = none
thread_body id (some (mutant m)) = none
thread_body id (some (thread t)) = some (id, t)
thread_body id (some (file f)) = none
thread_body id (some plain) = none

unfoldable pub thread_named : Objects → Option ℕ → Option (ℕ × Thread)
thread_named os none = none
thread_named os (some id) = thread_body id (body_at os id)

unfoldable pub thread_at : Kernel → ℕ → Option (ℕ × Thread)
thread_at k handle_or_ptr = thread_named k.objects (object_from_any k.objects handle_or_ptr)

abbrev pub least_stack : ℕ
least_stack = 0x10000

-- The object that ExCreateThread makes, as it stands when the host thread is launched.
unfoldable pub new_thread : ℕ → ℕ → ℕ → ℕ → ℕ → ℕ → Thread
new_thread start_address start_context stack_base stack_size thread_id creation_flags = record {
  released = creation_flags % 2 == 0;
  started = false;
  finished = false;
  entry_point = start_address;
  start_context = start_context;
  stack_base = stack_base;
  stack_size = stack_size;
  thread_id = thread_id;
}

-- ExCreateThread(r3 = handle out, r4 = stack size, r5 = thread id out, r7 = start address, r8 =
-- start context, r9 = flags).
unfoldable pub ex_create_thread : Commit → Kernel → ℕ → ℕ → ℕ → ℕ → ℕ → ℕ → ℕ × Kernel
ex_create_thread commit k handle_out stack_size thread_id_out start_address start_context flags =
    let size = if ltb stack_size least_stack then least_stack else stack_size in
    let (stack_base, h) = guest_alloc commit k.heap 0 size 0x10000 in
    let thread_id = k.next_thread_id in
    let k₁ = record k { heap = h; next_thread_id = u32 (thread_id + 1) } in
    let t = new_thread start_address start_context stack_base size thread_id flags in
    let (handle, os, h') = register_object commit k.objects h (thread t) in
    let k₂ = record k₁ { heap = h'; objects = os } in
    if stack_base == 0
    then (status_no_memory, k₁)
    else if handle == 0
    then (status_no_memory, k₂)
    else (status_success, store_out (store_out k₂ handle_out handle) thread_id_out thread_id)

-- NtResumeThread(r3 = handle, r4 = previous suspend count out) and KeResumeThread(r3 = thread).
unfoldable pub nt_resume_thread : Kernel → ℕ → ℕ → ℕ × Kernel
nt_resume_thread k handle suspend_count = elim (thread_at k handle) [
  | none ↦ (status_invalid_handle, k)
  | some (id, t) ↦ (status_success, replace (store_out k suspend_count 1) id (thread (release t)))
]

unfoldable pub ke_resume_thread : Kernel → ℕ → ℕ × Kernel
ke_resume_thread k ptr = elim (thread_at k ptr) [
  | none ↦ (0, k)
  | some (id, t) ↦ (1, replace k id (thread (release t)))
]

-- NtSuspendThread, KeSetAffinityThread, KeSetBasePriorityThread and KeQueryBasePriorityThread
-- change nothing.
unfoldable pub nt_suspend_thread : Kernel → ℕ × Kernel
nt_suspend_thread k = (status_success, k)

unfoldable pub ke_set_affinity_thread : Kernel → ℕ × Kernel
ke_set_affinity_thread k = (status_success, k)

unfoldable pub ke_set_base_priority_thread : Kernel → ℕ × Kernel
ke_set_base_priority_thread k = (status_success, k)

unfoldable pub ke_query_base_priority_thread : Kernel → ℕ × Kernel
ke_query_base_priority_thread k = (0, k)

-- `WaitForThreadExit`: whether the thread has exited; none inside where there is no thread.
unfoldable pub wait_for_thread_exit : Kernel → ℕ → Timeout → Option (Option Bool)
wait_for_thread_exit k ptr timeout = elim (thread_at k ptr) [
  | none ↦ some none
  | some (id, t) ↦ elim (wait_for_exit t timeout) [ none ↦ none | some b ↦ some (some b) ]
]
