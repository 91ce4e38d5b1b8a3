-- ===== src/Sync.antt =====
-- The imports on events and mutants, WoSRecomp/kernel/sync.cpp. A call that blocks is none; `self`
-- is the calling thread and `lr` its return address. The reports on wait sites are left out.
pub mod Waits
pub mod Signals
pub mod Multiple
pub mod Any
use wosrecomp.Base.{
  ℕ, zero, suc, ◌+◌, ◌*◌, ◌^◌, Bool, true, false, ◌||◌, not, if◌then◌else◌, ltb, ◌==◌, Option, none,
  some, u32,
}
use wosrecomp.Guest.{
  Mem, load_u32, store_u32, status_success, status_timeout, status_no_memory,
  status_invalid_parameter, status_invalid_handle,
}
use wosrecomp.Heap.{Heap, Commit}
use wosrecomp.Events.{Event, Mutant, Timeout, signal, clear, begin_wait, end_wait, lock, unlock}
use wosrecomp.Objects.{
  Body, Object, Objects, event, mutant, thread, file, plain, current_process_handle,
  current_thread_handle, register_object, register_object_at, object_from_any,
  object_from_guest_ptr, or_else, register_pseudo_handle, close_handle, body_at, update_body,
}
use wosrecomp.Base.{get_elem?}

-- Guest memory, the heap, the registry, the length of `g_allEvents`, and `g_nextThreadId`.
pub record Kernel : Type 0 where
  pub mem : Mem
  pub heap : Heap
  pub objects : Objects
  pub event_count : ℕ
  pub next_thread_id : ℕ

-- A fresh `EventObject`.
abbrev pub new_event : Event
new_event = record {
  signalled = false;
  manual_reset = false;
  waits = 0;
  timeouts = 0;
  signals = 0;
  index = 0;
  create_site = 0;
  last_set_site = 0;
}

-- `dynamic_cast<EventObject*>` of what a handle or pointer names, with where it stands.
unfoldable pub event_body : ℕ → Option Body → Option (ℕ × Event)
event_body id none = none
event_body id (some (event e)) = some (id, e)
event_body id (some (mutant m)) = none
event_body id (some (thread t)) = none
event_body id (some (file f)) = none
event_body id (some plain) = none

unfoldable pub event_named : Objects → Option ℕ → Option (ℕ × Event)
event_named os none = none
event_named os (some id) = event_body id (body_at os id)

unfoldable pub event_at : Kernel → ℕ → Option (ℕ × Event)
event_at k handle_or_ptr = event_named k.objects (object_from_any k.objects handle_or_ptr)

unfoldable pub mutant_body : ℕ → Option Body → Option (ℕ × Mutant)
mutant_body id none = none
mutant_body id (some (event e)) = none
mutant_body id (some (mutant m)) = some (id, m)
mutant_body id (some (thread t)) = none
mutant_body id (some (file f)) = none
mutant_body id (some plain) = none

unfoldable pub mutant_named : Objects → Option ℕ → Option (ℕ × Mutant)
mutant_named os none = none
mutant_named os (some id) = mutant_body id (body_at os id)

unfoldable pub mutant_at : Kernel → ℕ → Option (ℕ × Mutant)
mutant_at k handle_or_ptr = mutant_named k.objects (object_from_any k.objects handle_or_ptr)

unfoldable pub replace : Kernel → ℕ → Body → Kernel
replace k id body = record k { objects = update_body k.objects id body }

unfoldable pub store_out : Kernel → ℕ → ℕ → Kernel
store_out k out value = if out == 0 then k else record k { mem = store_u32 k.mem out value }

-- Registering an object and storing its handle.
unfoldable pub create : Commit → Kernel → Body → ℕ → ℕ × Kernel
create commit k body handle_out =
    let (handle, os, h) = register_object commit k.objects k.heap body in
    let k' = record k { objects = os; heap = h } in
    if handle == 0 then (status_no_memory, k') else (status_success, store_out k' handle_out handle)

-- NtCreateEvent(r3 = handle out, r5 = type, r6 = initial state).
unfoldable pub nt_create_event : Commit → Kernel → ℕ → ℕ → ℕ → ℕ → ℕ × Kernel
nt_create_event commit k lr handle_out event_type initial_state =
    create commit (record k { event_count = k.event_count + 1 })
      (event (record new_event {
        manual_reset = event_type == 0;
        signalled = if initial_state == 0 then false else true;
        create_site = u32 lr;
        index = k.event_count;
      }))
      handle_out

-- NtSetEvent, NtClearEvent and NtPulseEvent (r3 = handle).
unfoldable pub nt_set_event : Kernel → ℕ → ℕ → ℕ × Kernel
nt_set_event k lr handle = elim (event_at k handle) [
  | none ↦ (status_invalid_parameter, k)
  | some (id, e) ↦ (status_success, replace k id (event (signal e (u32 lr))))
]

unfoldable pub nt_clear_event : Kernel → ℕ → ℕ × Kernel
nt_clear_event k handle = elim (event_at k handle) [
  | none ↦ (status_invalid_parameter, k)
  | some (id, e) ↦ (status_success, replace k id (event (clear e)))
]

unfoldable pub nt_pulse_event : Kernel → ℕ → ℕ × Kernel
nt_pulse_event k handle = elim (event_at k handle) [
  | none ↦ (status_invalid_parameter, k)
  | some (id, e) ↦ (status_success, replace k id (event (clear (signal e 0))))
]

-- NtCreateMutant(r3 = handle out, r5 = initial owner).
unfoldable pub nt_create_mutant : Commit → Kernel → ℕ → ℕ → ℕ → ℕ × Kernel
nt_create_mutant commit k self handle_out initial_owner =
    create commit k
      (mutant (
        if initial_owner == 0
        then record { owner = 0; depth = 0 }
        else record { owner = self; depth = 1 }))
      handle_out

-- NtReleaseMutant(r3 = handle).
unfoldable pub nt_release_mutant : Kernel → ℕ → ℕ × Kernel
nt_release_mutant k handle = elim (mutant_at k handle) [
  | none ↦ (status_invalid_parameter, k)
  | some (id, m) ↦ (status_success, replace k id (mutant (unlock m)))
]

-- NtClose(r3 = handle).
unfoldable pub nt_close : Kernel → ℕ → ℕ × Kernel
nt_close k handle = (status_success, record k { objects = close_handle k.objects handle })

unfoldable pub is_none {ℓ} : {A : Type ℓ} → Option A → Bool
is_none none = true
is_none (some a) = false

unfoldable pub pointer_of : Objects → Option ℕ → Option ℕ
pointer_of os none = none
pointer_of os (some id) = elim (get_elem? os.store id) [ none ↦ none | some o ↦ some o.guest_ptr ]

-- What a handle names; the pseudo-handles get an object when they are first asked for.
unfoldable pub reference_target : Commit → Kernel → ℕ → Option ℕ × Kernel
reference_target commit k handle =
    let (ptr, os, h) = register_pseudo_handle commit k.objects k.heap handle in
    let found = object_from_any k.objects handle in
    if not (is_none found)
    then (found, k)
    else if handle == current_process_handle || handle == current_thread_handle
    then (
      if ptr == 0 then none else object_from_guest_ptr os ptr,
      record k { objects = os; heap = h },
    )
    else (none, k)

-- ObReferenceObjectByHandle(r3 = handle, r5 = object out).
unfoldable pub ob_reference_object_by_handle : Commit → Kernel → ℕ → ℕ → ℕ × Kernel
ob_reference_object_by_handle commit k handle object_out =
    let (target, k') = reference_target commit k handle in
    elim (pointer_of k'.objects target) [
      | none ↦ (status_invalid_handle, k')
      | some guest_ptr ↦ (status_success, store_out k' object_out guest_ptr)
    ]

-- The end of `EmbeddedEvent`: a new event, manual-reset, registered at a guest address.
abbrev pub adopted : Kernel → Event
adopted k = record new_event { manual_reset = true; index = k.event_count }

unfoldable pub adopt : Kernel → ℕ → Kernel
adopt k guest_ptr = record k {
  objects = register_object_at k.objects guest_ptr (event (adopted k));
  event_count = k.event_count + 1;
}

-- `EmbeddedEvent`: the event at a guest address, which is adopted if nothing stands there.
unfoldable pub embedded_event : Kernel → ℕ → Option (ℕ × Event) × Kernel
embedded_event k guest_ptr =
    let k' = adopt k guest_ptr in
    if guest_ptr == 0
    then (none, k)
    else if is_none (object_from_any k.objects guest_ptr)
    then (event_at k' guest_ptr, k')
    else (event_at k guest_ptr, k)

-- The event that a Ke import works on.
unfoldable pub event_or_embedded : Kernel → ℕ → Option (ℕ × Event) × Kernel
event_or_embedded k ptr = elim (event_at k ptr) [
  | some r ↦ (some r, k)
  | none ↦ embedded_event k ptr
]

abbrev pub flag : Bool → ℕ
flag b = if b then 1 else 0

-- KeSetEvent, KeResetEvent and KePulseEvent (r3 = event): the previous state.
unfoldable pub ke_set_event : Kernel → ℕ → ℕ → ℕ × Kernel
ke_set_event k lr ptr =
    let (r, k') = event_or_embedded k ptr in
    elim r [
      | none ↦ (0, k')
      | some (id, e) ↦ (flag e.signalled, replace k' id (event (signal e (u32 lr))))
    ]

unfoldable pub ke_reset_event : Kernel → ℕ → ℕ × Kernel
ke_reset_event k ptr =
    let (r, k') = event_or_embedded k ptr in
    elim r [ none ↦ (0, k') | some (id, e) ↦ (flag e.signalled, replace k' id (event (clear e))) ]

unfoldable pub ke_pulse_event : Kernel → ℕ → ℕ × Kernel
ke_pulse_event k ptr = elim (event_at k ptr) [
  | none ↦ (0, k)
  | some (id, e) ↦ (flag e.signalled, replace k id (event (clear (signal e 0))))
]
