-- ===== src/WaitAny.antt =====
-- `WaitAnyOf` against `Set`, WoSRecomp/kernel/sync.cpp: a thread that waits for any of several
-- events, one atomic step at a time, among threads that signal, clear and consume. `Set` is two
-- steps, the flag under the event's lock and the generation under the global one; the waiter takes
-- the generation, tries its events in turn, and sleeps until the generation differs. The deadline,
-- which only ends a wait, and the wake-up each second are left out.
pub mod Wakeups
use wosrecomp.Base.{
  ℕ, zero, suc, ◌+◌, ◌-◌, ◌^◌, ◌≤◌, ◌<◌, ◌≡◌, ◌≢◌, Bool, true, false, if◌then◌else◌, ◌==◌, u64,
}

-- Where the waiter is.
pub data Waiter : Type 0 where
  starting : Waiter
  trying : ℕ → ℕ → Waiter
  sleeping : ℕ → Waiter
  taken : ℕ → Waiter

-- The flag of each event of the waiter's array, whether it is manual-reset,
-- `g_anySignalGeneration`, the number of threads between the two steps of `Set`, and the waiter.
pub record World : Type 0 where
  pub signalled : ℕ → Bool
  pub manual_reset : ℕ → Bool
  pub generation : ℕ
  pub half_set : ℕ
  pub waiter : Waiter

unfoldable pub with_flag : World → ℕ → Bool → World
with_flag w i b = record w { signalled = λ j. if j == i then b else w.signalled j }

unfoldable pub set_flag : World → ℕ → World
unfolding with_flag
set_flag w i = record (with_flag w i true) { half_set = w.half_set + 1 }

unfoldable pub bump : World → World
bump w = record w { generation = u64 (w.generation + 1); half_set = w.half_set - 1 }

-- `TryConsume` on the event `i` of the array, by any thread.
unfoldable pub take : World → ℕ → World
unfolding with_flag
take w i = if w.manual_reset i then w else with_flag w i false

unfoldable pub at : World → Waiter → World
at w p = record w { waiter = p }

-- The steps, for an array of `count` events.
pub data Step (count : ℕ) : World → World → Type 0 where
  sets : (w : World) (i : ℕ) → Step count w (set_flag w i)
  bumps : (w : World) → 0 < w.half_set → Step count w (bump w)
  clears : (w : World) (i : ℕ) → Step count w (with_flag w i false)
  takes : (w : World) (i : ℕ) → w.signalled i ≡ true → Step count w (take w i)
  looks : (w : World) → w.waiter ≡ starting → Step count w (at w (trying w.generation 0))
  finds :
      (w : World) (g i : ℕ)
      → w.waiter ≡ trying g i
      → i < count
      → w.signalled i ≡ true
      → Step count w (at (take w i) (taken i))
  misses :
      (w : World) (g i : ℕ)
      → w.waiter ≡ trying g i
      → i < count
      → w.signalled i ≡ false
      → Step count w (at w (trying g (i + 1)))
  sleeps : (w : World) (g : ℕ) → w.waiter ≡ trying g count → Step count w (at w (sleeping g))
  wakes :
      (w : World) (g : ℕ) → w.waiter ≡ sleeping g → w.generation ≢ g → Step count w (at w starting)

-- Reached in `n` steps from a world in which the waiter starts.
pub data Reached (count : ℕ) : ℕ → World → Type 0 where
  start : (w : World) → w.waiter ≡ starting → w.generation ≡ 0 → w.half_set ≡ 0 → Reached count 0 w
  next : (n : ℕ) (w w' : World) → Reached count n w → Step count w w' → Reached count (suc n) w'
