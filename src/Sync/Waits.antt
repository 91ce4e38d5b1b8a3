-- ===== src/Sync/Waits.antt =====
-- The waits on one object and on several, WoSRecomp/kernel/sync.cpp. A wait is run at one moment,
-- with no step of another thread between its start and its end.
use wosrecomp.Base.{
  ℕ, zero, suc, ◌+◌, Bool, true, ◌||◌, if◌then◌else◌, ltb, ◌==◌, Option, none, some,
}
use wosrecomp.Guest.{load_u32, status_success, status_timeout}
use wosrecomp.Threads.Calls.{wait_for_thread_exit}
use wosrecomp.Events.{Event, Timeout, begin_wait, end_wait, lock}
use wosrecomp.Objects.{event, mutant}
use wosrecomp.Sync.{Kernel, event_at, mutant_at, replace, embedded_event}

-- `Wait` on the event `id`.
unfoldable pub wait_event : Kernel → ℕ → Event → Timeout → Option (Bool × Kernel)
wait_event k id e timeout = elim (end_wait (begin_wait e) timeout) [
  | none ↦ none
  | some (b, e') ↦ some (b, replace k id (event e'))
]

-- An embedded event is not waited for without end.
unfoldable pub embedded_timeout : Timeout → Timeout
embedded_timeout Timeout.infinite = Timeout.millis 100
embedded_timeout (Timeout.millis n) = Timeout.millis n

-- `WaitOnObject`: whether the wait was satisfied. A wait without end on an event is two waits, one
-- of five seconds; while the event stays unsignalled both go on. What is neither an event nor a
-- mutant counts as satisfied.
unfoldable pub wait_on_object : Kernel → ℕ → ℕ → Timeout → Option (Bool × Kernel)
wait_on_object k self ptr timeout = elim (event_at k ptr) [
  | some (id, e) ↦ wait_event k id e timeout
  | none ↦ elim (mutant_at k ptr) [
    | some (id, m) ↦ elim (lock m self) [
      | none ↦ none
      | some m' ↦ some (true, replace k id (mutant m'))
    ]
    | none ↦
        let (r, k') = embedded_event k ptr in
        elim r [
          | none ↦ some (true, k')
          | some (id, e) ↦ wait_event k' id e (embedded_timeout timeout)
        ]
  ]
]

abbrev pub wait_status : Bool → ℕ
wait_status b = if b then status_success else status_timeout

-- The end of NtWaitForSingleObjectEx, for what is neither an event nor a mutant.
unfoldable pub wait_thread : Kernel → ℕ → Timeout → Option (ℕ × Kernel)
wait_thread k handle timeout = elim (wait_for_thread_exit k handle timeout) [
  | none ↦ none
  | some none ↦ some (status_success, k)
  | some (some b) ↦ some (wait_status b, k)
]

-- NtWaitForSingleObjectEx(r3 = handle), for a call that is not alerted.
unfoldable pub nt_wait_for_single_object : Kernel → ℕ → ℕ → Timeout → Option (ℕ × Kernel)
nt_wait_for_single_object k self handle timeout = elim (event_at k handle) [
  | some (id, e) ↦ elim (wait_event k id e timeout) [
    | none ↦ none
    | some (b, k') ↦ some (wait_status b, k')
  ]
  | none ↦ elim (mutant_at k handle) [
    | some (id, m) ↦ elim (lock m self) [
      | none ↦ none
      | some m' ↦ some (status_success, replace k id (mutant m'))
    ]
    | none ↦ wait_thread k handle timeout
  ]
]

-- KeWaitForSingleObject(r3 = object), for a call that is not alerted.
unfoldable pub ke_wait_for_single_object : Kernel → ℕ → ℕ → Timeout → Option (ℕ × Kernel)
ke_wait_for_single_object k self object timeout = elim (wait_on_object k self object timeout) [
  | none ↦ none
  | some (b, k') ↦ some (wait_status b, k')
]

-- KeWaitForMultipleObjects(r3 = count, r4 = objects), for a call that is not alerted: only the
-- first object is waited for, for 16 ms.
unfoldable pub ke_wait_for_multiple_objects : Kernel → ℕ → ℕ → ℕ → Option (ℕ × Kernel)
ke_wait_for_multiple_objects k self count object_array =
    if count == 0 || object_array == 0
    then some (status_success, k)
    else elim (wait_on_object k self (load_u32 k.mem object_array) (Timeout.millis 16)) [
      | none ↦ none
      | some (b, k') ↦ some (status_success, k')
    ]

-- The WaitAll loop of NtWaitForMultipleObjectsEx, with `n` handles left from `handle_array` on.
unfoldable pub wait_all : ℕ → Kernel → ℕ → ℕ → Timeout → Option Kernel
wait_all zero k self handle_array timeout = some k
wait_all (suc n) k self handle_array timeout =
    elim (wait_on_object k self (load_u32 k.mem handle_array) timeout) [
      | none ↦ none
      | some (b, k') ↦ wait_all n k' self (handle_array + 4) timeout
    ]

-- NtWaitForMultipleObjectsEx(r3 = count, r4 = handles, r5 = 0 for WaitAll), for such a wait that is
-- not alerted.
unfoldable pub nt_wait_for_all_objects : Kernel → ℕ → ℕ → ℕ → Timeout → Option (ℕ × Kernel)
nt_wait_for_all_objects k self count handle_array timeout =
    if count == 0 || handle_array == 0
    then some (status_success, k)
    else elim (wait_all (if ltb 64 count then 64 else count) k self handle_array timeout) [
      | none ↦ none
      | some k' ↦ some (status_success, k')
    ]
