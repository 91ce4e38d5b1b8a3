-- ===== src/Apc.antt =====
-- Asynchronous procedure calls, WoSRecomp/kernel/file.cpp: a thread's queue of pending calls, their
-- delivery at a wait, and what an alertable wait returns then. The guest's recompiled functions are
-- a parameter. Reports and the statistics on alertable waits are left out.
pub mod Delivery
pub mod Waits
use wosrecomp.Base.{
  ℕ, ◌+◌, ◌-◌, ◌*◌, ◌^◌, Bool, true, false, ◌||◌, not, if◌then◌else◌, ltb, ◌==◌, Option, none, some,
  List, [], ◌∷◌, ◌++◌, and_not32, bit_and,
}
use wosrecomp.Guest.{load_u32, status_user_apc}
use wosrecomp.Sync.{Kernel}

-- `PendingApc`.
pub record PendingApc : Type 0 where
  pub routine : ℕ
  pub context : ℕ
  pub iosb : ℕ

-- The registers that the calls pass; the others are `rest`.
pub record Context : Type 0 where
  pub r3 : ℕ
  pub r4 : ℕ
  pub r5 : ℕ
  pub rest : ℕ → ℕ

-- What the guest's code works on, on one thread: the kernel, and `t_apcQueue`.
pub record State : Type 0 where
  pub kernel : Kernel
  pub apc_queue : List PendingApc

-- `PPC_LOOKUP_FUNC`: the recompiled function at an address, if there is one.
abbrev pub Code : Type 0
Code = ℕ → Option (Context → State → Context × State)

-- `QueueThreadApc`.
unfoldable pub queue_thread_apc : State → ℕ → ℕ → ℕ → State
queue_thread_apc s routine context iosb = record s {
  apc_queue = s.apc_queue ++ record { routine = routine; context = context; iosb = iosb } ∷ [];
}

abbrev pub request_block : ℕ
request_block = 0x82F7_1ACC

abbrev pub complete : ℕ
complete = 0x8296_5488

-- A call of a guest function; the caller's registers are restored behind it.
unfoldable pub call : Option (Context → State → Context × State) → Context → State → State
call none ctx s = s
call (some f) ctx s = (f ctx s).1

unfoldable pub is_live_handle : ℕ → Bool
is_live_handle handle = not (handle == 0 || not (bit_and handle 0x8000_0000 == 0))

unfoldable pub in_image : ℕ → Bool
in_image addr = not (ltb addr 0x8200_0000 || not (ltb addr 0x8300_0000))

-- `ProbeCompleteAsyncRequest`; `enabled` is false where WOS_NO_COMPLETE_IO is set.
unfoldable pub probe_complete_async_request : Code → Bool → Context → State → State
probe_complete_async_request code enabled ctx s =
    let file_request = load_u32 s.kernel.mem (request_block + 0x18) in
    let handle = load_u32 s.kernel.mem (file_request + 0x34) in
    let done = call (code complete) (record ctx { r3 = handle }) s in
    if not enabled
    then s
    else if not (in_image file_request)
    then s
    else if is_live_handle handle
    then done
    else s

-- One turn of the loop in `DeliverPendingApcs`, with the routine found or not.
unfoldable pub run_routine :
    Code → Bool → Context → PendingApc → Option (Context → State → Context × State) → State → State
run_routine code enabled ctx apc none s = s
run_routine code enabled ctx apc (some routine) s =
    let args = record ctx { r3 = apc.context; r4 = apc.iosb; r5 = 0 } in
    probe_complete_async_request code enabled ctx (routine args s).1

unfoldable pub deliver_apc : Code → Bool → Context → PendingApc → State → State
deliver_apc code enabled ctx apc s =
    run_routine code enabled ctx apc (code (and_not32 apc.routine 3)) s

unfoldable pub deliver_all : Code → Bool → Context → List PendingApc → State → State
deliver_all code enabled ctx [] s = s
deliver_all code enabled ctx (apc ∷ queue) s =
    deliver_all code enabled ctx queue (deliver_apc code enabled ctx apc s)

unfoldable pub is_empty {ℓ} : {A : Type ℓ} → List A → Bool
is_empty [] = true
is_empty (x ∷ xs) = false

-- `DeliverPendingApcs`.
unfoldable pub deliver_pending_apcs : Code → Bool → Context → State → Bool × State
deliver_pending_apcs code enabled ctx s =
    if is_empty s.apc_queue
    then (false, s)
    else (true, deliver_all code enabled ctx s.apc_queue (record s { apc_queue = [] }))

-- `AlertableReturn`: whether the caller returns at once, with the status in r3.
unfoldable pub alertable_return : Code → Bool → Context → State → ℕ → Bool × Context × State
alertable_return code enabled ctx s alertable =
    let (delivered, s') = deliver_pending_apcs code enabled ctx s in
    if not delivered
    then (false, ctx, s')
    else if alertable == 0
    then (false, ctx, s')
    else (true, record ctx { r3 = status_user_apc }, s')
