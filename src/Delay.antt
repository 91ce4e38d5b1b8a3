-- ===== src/Delay.antt =====
-- Time, WoSRecomp/kernel/system.cpp: KeQuerySystemTime, KeQueryPerformanceFrequency and
-- KeDelayExecutionThread. The host's clock, in 100 ns units since 1601, is an argument; the census
-- of call sites is left out.
pub mod Sleeps
use wosrecomp.Base.{
  ℕ, ◌+◌, ◌-◌, ◌*◌, ◌/◌, ◌^◌, Bool, true, false, if◌then◌else◌, ltb, ◌==◌, Option, none, some, u64,
}
use wosrecomp.Guest.{Mem, load_u64, store_u64, status_success}
use wosrecomp.Apc.{Context, State, Code, alertable_return}

abbrev pub unix_to_windows_epoch : ℕ
unix_to_windows_epoch = 116444736000000000

-- `SystemTime100ns`, of the nanoseconds since 1970.
unfoldable pub system_time_100ns : ℕ → ℕ
system_time_100ns ns = u64 (unix_to_windows_epoch + ns / 100)

-- KeQuerySystemTime(r3 = out).
unfoldable pub ke_query_system_time : Mem → ℕ → ℕ → Mem
ke_query_system_time m now out = if out == 0 then m else store_u64 m out now

abbrev pub timebase_frequency : ℕ
timebase_frequency = 50000000

-- What the host thread does: give up its turn, or sleep a number of nanoseconds, which the host
-- reads as a signed number of 64 bits.
pub data Pause : Type 0 where
  yields : Pause
  sleeps : ℕ → Pause

abbrev pub max_hundred_ns : ℕ
max_hundred_ns = 36000000000

-- The two branches on an interval that is not null: relative where it is negative, else a deadline.
unfoldable pub pause_relative : ℕ → Pause
pause_relative interval =
    let hundred_ns = u64 (2 ^ 64 - interval) in
    let capped = if ltb max_hundred_ns hundred_ns then max_hundred_ns else hundred_ns in
    if hundred_ns == 0 then yields else sleeps (u64 (capped * 100))

unfoldable pub pause_until : ℕ → ℕ → Pause
pause_until now deadline =
    let remaining = if ltb now deadline then deadline - now else 0 in
    if remaining == 0 then yields else sleeps (u64 (remaining * 100))

unfoldable pub pause : Mem → ℕ → ℕ → Pause
pause m now interval_ptr =
    if interval_ptr == 0
    then yields
    else if ltb (load_u64 m interval_ptr) (2 ^ 63)
    then pause_until now (load_u64 m interval_ptr)
    else pause_relative (load_u64 m interval_ptr)

-- KeDelayExecutionThread(r4 = alertable, r5 = interval): the pause that it makes, if it makes one,
-- and what it returns with.
unfoldable pub ke_delay_execution_thread :
    Code → Bool → Context → State → ℕ → ℕ → ℕ → Option Pause × Context × State
ke_delay_execution_thread code enabled ctx s now alertable interval_ptr =
    let (back, ctx', s') = alertable_return code enabled ctx s alertable in
    if back
    then (none, ctx', s')
    else (some (pause s'.kernel.mem now interval_ptr), record ctx' { r3 = status_success }, s')
