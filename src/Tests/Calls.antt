-- ===== src/Tests/Calls.antt =====
-- Waits for any object, pending calls, delays and the display.
use wosrecomp.Base.{
  ℕ, ◌+◌, ◌-◌, ◌^◌, ◌≡◌, inl, inr, refl, true, ◌==◌, if◌then◌else◌, none, some, Bool-cases, sym,
  List, [], ◌∷◌, ◌++◌, arith,
}
use mathlib.Core.List.{append-nil}
use mathlib.Core.Option.{some-injective}
use wosrecomp.Guest.{Mem, load_u32, load_u64, store_u32, store_u64, store_byte, copy_in, copy_out}
use wosrecomp.Guest.Word.{bswap32, bswap64}
use wosrecomp.Heap.{Heap, Commit}
use wosrecomp.Heap
use wosrecomp.Events.{Timeout, timeout_to_millis, begin_wait, consume}
use wosrecomp.Objects.{
  event, object_from_any, object_from_handle, object_from_guest_ptr, or_else, body_at, body_of,
  set_body, update_body,
}
use wosrecomp.Sync.{
  Kernel, new_event, event_at, event_named, event_body, event_or_embedded, replace,
}
use wosrecomp.Sync.Any.{
  Tells, collect, change, id_of, event_of, signalled_event, try_any, any_or_run_out, wait_any_of,
  any_status, nt_wait_for_multiple_objects, nt_wait_for_multiple_objects-Tells,
}
use wosrecomp.Apc.{PendingApc, Context, State, Code, deliver_pending_apcs, complete}
use wosrecomp.Apc.Delivery.{Queues, deliver_pending_apcs-once}
use wosrecomp.Apc.Waits.{
  Delivers, nt_wait_for_single_object_ex, ke_wait_for_single_object_ex,
  ke_wait_for_multiple_objects_ex, nt_wait_for_multiple_objects_ex, wait_imports-Deliver,
}
use wosrecomp.Sync.Waits.{
  nt_wait_for_single_object, ke_wait_for_single_object, ke_wait_for_multiple_objects,
}
use wosrecomp.Screen.{Screen, Registers, vblank}
use wosrecomp.Screen

-- Two events behind the handles 4 and 8, which the array at 0x1000 holds; the second is signalled.
abbrev two_events : Kernel
two_events = record {
  mem = store_u32 (store_u32 (λ a. 0) 0x1000 4) 0x1004 8;
  heap = Heap.start;
  objects = record {
    store =
        record { handle = 4; guest_ptr = 0x4000_0000; body = event new_event }
        ∷ record {
          handle = 8;
          guest_ptr = 0x4000_1000;
          body = event (record new_event { signalled = true });
        }
        ∷ [];
    by_handle = (4, 0) ∷ (8, 1) ∷ [];
    by_guest_ptr = (0x4000_0000, 0) ∷ (0x4000_1000, 1) ∷ [];
    pseudo = [];
    next_handle = 12;
  };
  event_count = 2;
  next_thread_id = 0x1000;
}

second_wakes :
    (k' : Kernel) × (nt_wait_for_multiple_objects two_events 1 2 0x1000 1 (Timeout.millis 5)
      ≡ some (1, k'))
unfolding nt_wait_for_multiple_objects wait_any_of collect change id_of event_of signalled_event
    try_any any_or_run_out any_status event_or_embedded event_at event_named event_body
    object_from_any object_from_handle object_from_guest_ptr or_else body_at body_of set_body
    update_body replace load_u32 store_u32 copy_out copy_in store_byte bswap32 begin_wait consume
second_wakes = (_, refl)

nt_wait_for_multiple_objects-Tells_example : let c = collect 2 two_events 0x1000 in Tells c.1 c.0 1
nt_wait_for_multiple_objects-Tells_example =
    nt_wait_for_multiple_objects-Tells two_events second_wakes.0 1 2 0x1000 1 1 (Timeout.millis 5)
      (omega arith) (omega arith) (omega arith) (omega arith) second_wakes.1

-- One routine, at 0x82B1_6658, which queues a call of itself with the argument 0 while its own is
-- not 0.
abbrev agrees : Commit
agrees addr size = true

abbrev again : PendingApc
again = record { routine = 0x82B1_6659; context = 0; iosb = 0 }

abbrev requeue : Context → State → Context × State
requeue ctx s = (ctx, if ctx.r3 == 0 then s else record s { apc_queue = s.apc_queue ++ again ∷ [] })

abbrev one_routine : Code
one_routine addr = if addr == 0x82B1_6658 then some requeue else none

abbrev requeues : ℕ → ℕ → List PendingApc
requeues addr arg = if addr == 0x82B1_6658 then (if arg == 0 then [] else again ∷ []) else []

abbrev start_context : Context
start_context = record { r3 = 0; r4 = 0; r5 = 0; rest = λ r. 0 }

abbrev two_calls : List PendingApc
two_calls = record again { context = 7 } ∷ record again { routine = 0x8200_0000 } ∷ []

requeue-queue :
    (ctx : Context) (s : State)
    → (requeue ctx s).1.apc_queue ≡ s.apc_queue ++ (if ctx.r3 == 0 then [] else again ∷ [])
requeue-queue ctx s = elim (Bool-cases (ctx.r3 == 0)) [
  | inl e ↦ rw e (sym (append-nil s.apc_queue))
  | inr e ↦ rw e refl
]

one_routine-Queues : Queues one_routine requeues
one_routine-Queues addr f ctx s e = elim (Bool-cases (addr == 0x82B1_6658)) [
  | inl here ↦
      let same : requeue ≡ f = some-injective _ _ (rw here at e) in
      rw (here, ← same) (requeue-queue ctx s)
  | inr there ↦ ground (arith, e, there)
]

requeues-quiet : (handle : ℕ) → requeues complete handle ≡ []
requeues-quiet handle = refl

deliver_pending_apcs-once_example :
    (deliver_pending_apcs one_routine true start_context
      (record { kernel = two_events; apc_queue = two_calls })).1.apc_queue
    ≡ again ∷ []
deliver_pending_apcs-once_example =
    deliver_pending_apcs-once one_routine requeues one_routine-Queues requeues-quiet true
      start_context two_events two_calls

wait_imports-Deliver_example :
    let s : State = record { kernel = two_events; apc_queue = two_calls } in
    let delivers =
      Delivers one_routine requeues one_routine-Queues requeues-quiet true start_context two_events
        two_calls 1 in
    delivers
      (λ k. nt_wait_for_single_object k 1 4 (timeout_to_millis k.mem 0))
      (nt_wait_for_single_object_ex one_routine true start_context s 1 4 1 0)
    × delivers
        (λ k. ke_wait_for_single_object k 1 4 (timeout_to_millis k.mem 0))
        (ke_wait_for_single_object_ex one_routine true start_context s 1 4 1 0)
    × delivers
        (λ k. ke_wait_for_multiple_objects k 1 2 0x1000)
        (ke_wait_for_multiple_objects_ex one_routine true start_context s 1 2 0x1000 1)
    × delivers
        (λ k. nt_wait_for_multiple_objects k 1 2 0x1000 1 (timeout_to_millis k.mem 0))
        (nt_wait_for_multiple_objects_ex one_routine true start_context s 1 2 0x1000 1 1 0)
wait_imports-Deliver_example =
    wait_imports-Deliver one_routine requeues one_routine-Queues requeues-quiet true start_context
      two_events two_calls 1 1 4 0 2 0x1000 1

-- One hour and a second, relative, and a deadline 2 ^ 62 units behind the time 5.
abbrev long_sleep : Mem
long_sleep = store_u64 (λ a. 0) 0x1000 (2 ^ 64 - 36010000000)

long_interval : load_u64 long_sleep 0x1000 ≡ 2 ^ 64 - 36010000000
unfolding load_u64 store_u64 copy_out copy_in store_byte bswap64 bswap32
long_interval = refl

abbrev far_deadline : Mem
far_deadline = store_u64 (λ a. 0) 0x1000 (5 + 2 ^ 62)

far_interval : load_u64 far_deadline 0x1000 ≡ 5 + 2 ^ 62
unfolding load_u64 store_u64 copy_out copy_in store_byte bswap64 bswap32
far_interval = refl

-- A screen with a swap pending, and a callback that changes nothing.
abbrev screen : Screen
screen = record {
  mem = λ a. 0;
  heap = Heap.start;
  thread_blocks = [];
  interrupt_callback = 0x82AB_9840;
  interrupt_user_data = 7;
  swap_pending = true;
  vblank_running = true;
  vblank_count = 0;
  interrupt_stack = 0x4000_0000;
  interrupt_pcr = 0x4002_0000;
  command_buffer = 0;
}

abbrev idle_callback : Registers → Screen → Registers × Screen
idle_callback ctx d = (ctx, d)

abbrev screen_code : Screen.Code
screen_code addr = some idle_callback
