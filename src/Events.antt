-- ===== src/Events.antt =====
-- Events and mutants, WoSRecomp/kernel/sync.cpp: `EventObject` and `MutantObject`, and the time
-- that a wait may take. A wait that would block is none: the thread stays where it is until another
-- step.
pub mod Runs
use wosrecomp.Base.{
  ℕ, zero, suc, ◌+◌, ◌-◌, ◌*◌, ◌/◌, ◌^◌, Bool, true, false, not, if◌then◌else◌, ltb, ◌==◌, Option,
  none, some, u64,
}
use wosrecomp.Guest.{Mem, load_u32}

-- `EventObject`.
pub record Event : Type 0 where
  pub signalled : Bool
  pub manual_reset : Bool
  pub waits : ℕ
  pub timeouts : ℕ
  pub signals : ℕ
  pub index : ℕ
  pub create_site : ℕ
  pub last_set_site : ℕ

-- `Set`, with the guest's call site or 0.
unfoldable pub signal : Event → ℕ → Event
signal e site = record e {
  signalled = true;
  signals = u64 (e.signals + 1);
  last_set_site = if site == 0 then e.last_set_site else site;
}

-- `Clear`.
unfoldable pub clear : Event → Event
clear e = record e { signalled = false }

-- What a satisfied wait leaves: auto-reset consumes the signal.
unfoldable pub consume : Event → Event
consume e = record e { signalled = if e.manual_reset then e.signalled else false }

-- `TryConsume`.
unfoldable pub try_consume : Event → Bool × Event
try_consume e = if e.signalled then (true, consume e) else (false, e)

-- The start of `Wait`.
unfoldable pub begin_wait : Event → Event
begin_wait e = record e { waits = u64 (e.waits + 1) }

-- How long a wait may last: for ever, or a number of milliseconds.
pub data Timeout : Type 0 where
  infinite : Timeout
  millis : ℕ → Timeout

-- The end of `Wait`, in the state of the event when the thread looks last: whether it was
-- satisfied.
unfoldable pub end_wait : Event → Timeout → Option (Bool × Event)
end_wait e timeout = if e.signalled then some (true, consume e) else elim timeout [
  | infinite ↦ none
  | millis n ↦ some (false, record e { timeouts = u64 (e.timeouts + 1) })
]

-- `MutantObject`, a recursive mutex: who holds it, and how many times.
pub record Mutant : Type 0 where
  pub owner : ℕ
  pub depth : ℕ

-- `m.lock()` by a thread; none if it blocks.
unfoldable pub lock : Mutant → ℕ → Option Mutant
lock m self =
    if m.depth == 0
    then some (record { owner = self; depth = 1 })
    else if m.owner == self
    then some (record m { depth = m.depth + 1 })
    else none

-- `m.unlock()`, which wants the owner for caller.
unfoldable pub unlock : Mutant → Mutant
unlock m = record m { depth = m.depth - 1 }

-- `TimeoutToMillis`: a signed number of 100ns units, relative if negative, at `timeout_ptr`. The
-- negation of the least number wraps.
unfoldable pub timeout_to_millis : Mem → ℕ → Timeout
timeout_to_millis m timeout_ptr =
    let hi = load_u32 m timeout_ptr in
    let lo = load_u32 m (timeout_ptr + 4) in
    let ticks = hi * 2 ^ 32 + lo in
    if timeout_ptr == 0
    then Timeout.infinite
    else if ltb ticks (2 ^ 63)
    then Timeout.millis 0
    else if ticks == 2 ^ 63
    then Timeout.infinite
    else Timeout.millis ((2 ^ 64 - ticks) / 10000)
