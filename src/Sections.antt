-- ===== src/Sections.antt =====
-- Critical sections, WoSRecomp/kernel/thread.cpp: the imports on `g_criticalSections`, and the
-- atomic steps that threads take through one of them. A host thread is a number; `ident` gives its
-- `t_guestThreadId`, which is 0 for every thread that ExCreateThread did not make. `depth` is an
-- int of 32 bits. A thread leaves only a section that it holds, as the host's mutex wants. The
-- report after five seconds is left out.
pub mod Exclusion
pub mod Calls
use wosrecomp.Base.{
  ℕ, zero, suc, ◌+◌, ◌-◌, ◌*◌, ◌^◌, ◌≡◌, ◌<◌, Bool, true, false, not, ◌||◌, if◌then◌else◌, ltb,
  ◌==◌, Option, none, some, u32,
}
use wosrecomp.Guest.{status_success}
use wosrecomp.Events.{Mutant, lock, unlock}

-- `CriticalSection`.
pub record Section : Type 0 where
  pub m : Mutant
  pub owner : ℕ
  pub depth : ℕ

abbrev pub new_section : Section
new_section = record { m = record { owner = 0; depth = 0 }; owner = 0; depth = 0 }

-- `g_criticalSections`: an address that was not seen before has a new section.
abbrev pub Sections : Type 0
Sections = ℕ → Section

unfoldable pub set_section : Sections → ℕ → Section → Sections
set_section cs guest_addr s addr = if addr == guest_addr then s else cs addr

-- `owner.store(t_guestThreadId)` and `depth.fetch_add(1)`.
unfoldable pub name_owner : Section → ℕ → Section
name_owner s ident = record s { owner = ident }

unfoldable pub deepen : Section → Section
deepen s = record s { depth = u32 (s.depth + 1) }

-- `depth.fetch_sub(1)`, the owner's reset where the depth was at most 1, and `m.unlock()`.
unfoldable pub lower : Section → Section
lower s = record s { depth = u32 (s.depth + (2 ^ 32 - 1)) }

unfoldable pub at_most_one : ℕ → Bool
at_most_one depth = ltb depth 2 || not (ltb depth (2 ^ 31))

unfoldable pub forget_owner : Section → ℕ → Section
forget_owner s depth = if at_most_one depth then record s { owner = 0 } else s

unfoldable pub release : Section → Section
release s = record s { m = unlock s.m }

-- RtlInitializeCriticalSection and RtlInitializeCriticalSectionAndSpinCount (r3 = section), which
-- only make sure that the section exists, and RtlDeleteCriticalSection, which leaves it.
unfoldable pub rtl_initialize_critical_section : Sections → ℕ → ℕ × Sections
rtl_initialize_critical_section cs guest_addr =
    (status_success, set_section cs guest_addr (cs guest_addr))

unfoldable pub rtl_delete_critical_section : Sections → ℕ × Sections
rtl_delete_critical_section cs = (status_success, cs)

-- RtlEnterCriticalSection(r3 = section) by a thread; none if it blocks.
unfoldable pub rtl_enter_critical_section : Sections → ℕ → ℕ → ℕ → Option Sections
rtl_enter_critical_section cs self ident guest_addr = elim (lock (cs guest_addr).m self) [
  | none ↦ none
  | some m ↦
      some
        (set_section cs guest_addr (deepen (name_owner (record (cs guest_addr) { m = m }) ident)))
]

-- RtlLeaveCriticalSection(r3 = section).
unfoldable pub rtl_leave_critical_section : Sections → ℕ → Sections
rtl_leave_critical_section cs guest_addr =
    let s = cs guest_addr in set_section cs guest_addr (release (forget_owner (lower s) s.depth))

-- Where a thread is: outside of both calls, or between two of their atomic steps.
pub data Phase : Type 0 where
  outside : Phase
  locked : Phase
  named : Phase
  lowered : ℕ → Phase
  forgotten : Phase

-- One section, and where each thread is.
pub record Threads : Type 0 where
  pub section : Section
  pub phase : ℕ → Phase

unfoldable pub moves : Threads → ℕ → Section → Phase → Threads
moves w t s p = record { section = s; phase = λ u. if u == t then p else w.phase u }

-- The steps of the two calls.
pub data Step (ident : ℕ → ℕ) : Threads → Threads → Type 0 where
  locks :
      (w : Threads) (t : ℕ) (m : Mutant)
      → w.phase t ≡ outside
      → lock w.section.m t ≡ some m
      → Step ident w (moves w t (record w.section { m = m }) locked)
  names :
      (w : Threads) (t : ℕ)
      → w.phase t ≡ locked
      → Step ident w (moves w t (name_owner w.section (ident t)) named)
  deepens :
      (w : Threads) (t : ℕ)
      → w.phase t ≡ named
      → Step ident w (moves w t (deepen w.section) outside)
  lowers :
      (w : Threads) (t : ℕ)
      → w.phase t ≡ outside
      → w.section.m.owner ≡ t
      → 0 < w.section.m.depth
      → Step ident w (moves w t (lower w.section) (lowered w.section.depth))
  forgets :
      (w : Threads) (t depth : ℕ)
      → w.phase t ≡ lowered depth
      → Step ident w (moves w t (forget_owner w.section depth) forgotten)
  releases :
      (w : Threads) (t : ℕ)
      → w.phase t ≡ forgotten
      → Step ident w (moves w t (release w.section) outside)

-- Reached in `n` steps from a new section.
pub data Reached (ident : ℕ → ℕ) : ℕ → Threads → Type 0 where
  start : Reached ident 0 (record { section = new_section; phase = λ u. outside })
  next : (n : ℕ) (w w' : Threads) → Reached ident n w → Step ident w w' → Reached ident (suc n) w'
