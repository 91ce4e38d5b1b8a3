-- ===== src/Threads.antt =====
-- Guest threads, WoSRecomp/kernel/thread.cpp: `ThreadObject`, and the life of the host thread that
-- `GuestThreadMain` runs on. A call that blocks is none. `g_liveGuestThreads`, which nothing reads,
-- and the reports are left out.
pub mod Life
pub mod Calls
pub mod Named
pub mod Creation
use wosrecomp.Base.{
  ℕ, zero, suc, ◌+◌, ◌^◌, ◌≡◌, Bool, true, false, if◌then◌else◌, Option, none, some, u32, sub32,
}
use wosrecomp.Events.{Timeout}

-- `ThreadObject`.
pub record Thread : Type 0 where
  pub released : Bool
  pub started : Bool
  pub finished : Bool
  pub entry_point : ℕ
  pub start_context : ℕ
  pub stack_base : ℕ
  pub stack_size : ℕ
  pub thread_id : ℕ

-- `Release` and `MarkFinished`.
unfoldable pub release : Thread → Thread
release t = record t { released = true }

unfoldable pub mark_finished : Thread → Thread
mark_finished t = record t { finished = true }

-- `WaitForRelease`, and `WaitForExit` at the moment when the thread looks last.
unfoldable pub wait_for_release : Thread → Option Thread
wait_for_release t = if t.released then some t else none

unfoldable pub wait_for_exit : Thread → Timeout → Option Bool
wait_for_exit t timeout =
    if t.finished
    then some true
    else elim timeout [ Timeout.infinite ↦ none | Timeout.millis n ↦ some false ]

-- The registers that a guest thread starts with; `pcr` is the block that CreateThreadPcr returned.
pub record Registers : Type 0 where
  pub r1 : ℕ
  pub r3 : ℕ
  pub r13 : ℕ

unfoldable pub entry_registers : Thread → ℕ → Registers
entry_registers t pcr = record {
  r1 = sub32 (u32 (t.stack_base + t.stack_size)) 0x100;
  r3 = t.start_context;
  r13 = pcr;
}

-- Where the host thread is.
pub data Place : Type 0 where
  waiting : Place
  running : Registers → Place
  returned : Place

pub record HostThread : Type 0 where
  pub thread : Thread
  pub place : Place

-- `GuestThreadMain` up to the guest's code: `known` tells whether a function was recompiled at the
-- entry point.
unfoldable pub guest_thread_starts : (ℕ → Bool) → Thread → ℕ → Option HostThread
guest_thread_starts known t pcr = elim (wait_for_release t) [
  | none ↦ none
  | some t ↦ some (
      if known t.entry_point
      then record { thread = record t { started = true }; place = running (entry_registers t pcr) }
      else record { thread = mark_finished t; place = returned })
]

-- Its end, behind the guest's code.
unfoldable pub guest_thread_returns : Thread → HostThread
guest_thread_returns t = record { thread = mark_finished t; place = returned }

-- The steps: another thread resumes this one, and its own.
pub data Step (known : ℕ → Bool) : HostThread → HostThread → Type 0 where
  resumes : (l : HostThread) → Step known l (record l { thread = release l.thread })
  starts :
      (l l' : HostThread) (pcr : ℕ)
      → l.place ≡ waiting
      → guest_thread_starts known l.thread pcr ≡ some l'
      → Step known l l'
  returns :
      (l : HostThread) (r : Registers)
      → l.place ≡ running r
      → Step known l (guest_thread_returns l.thread)

-- Reached from a thread that was created with these flags.
pub data Reached (known : ℕ → Bool) (t : Thread) : HostThread → Type 0 where
  created : Reached known t (record { thread = t; place = waiting })
  next : (l l' : HostThread) → Reached known t l → Step known l l' → Reached known t l'
