-- ===== src/Sections/Calls.antt =====
-- The two imports, run by one thread without another between, are runs of the atomic steps.
use wosrecomp.Base.{
  ℕ, suc, ◌≡◌, ◌<◌, ◌⊎◌, refl, some, arith, ==_self, Option-cases, inl, inr, ap, sym, ◌∙◌,
  Bool-cases, ◌==◌,
}
use wosrecomp.Events.{Mutant, lock}
use wosrecomp.Sections.{
  Section, Sections, set_section, name_owner, deepen, lower, forget_owner, release,
  rtl_enter_critical_section, rtl_leave_critical_section, Phase, outside, locked, named, lowered,
  forgotten, Threads, moves, locks, names, deepens, lowers, forgets, releases, Reached, next, Step,
}

moves_self : (w : Threads) (t : ℕ) (s : Section) (p : Phase) → (moves w t s p).phase t ≡ p
unfolding moves
moves_self w t s p = rw (==_self t) refl

moves-section : (w : Threads) (t : ℕ) (s : Section) (p : Phase) → (moves w t s p).section ≡ s
unfolding moves
moves-section w t s p = refl

set_section_self : (cs : Sections) (addr : ℕ) (s : Section) → set_section cs addr s addr ≡ s
unfolding set_section
set_section_self cs addr s = rw (==_self addr) refl

enter-inv :
    (cs cs' : Sections) (self ident guest_addr : ℕ)
    → rtl_enter_critical_section cs self ident guest_addr ≡ some cs'
    → (m : Mutant) × (lock (cs guest_addr).m self ≡ some m)
      × (set_section cs guest_addr (deepen (name_owner (record (cs guest_addr) { m = m }) ident))
          ≡ cs')
unfolding rtl_enter_critical_section
enter-inv cs cs' self ident guest_addr e = elim (Option-cases (lock (cs guest_addr).m self)) [
  | inl l ↦ ground (arith, l, e)
  | inr (m, l) ↦ (m, l, ground (arith, l, e))
]

-- The thread that takes a step.
pub mover : (ident : ℕ → ℕ) (w w' : Threads) → Step ident w w' → ℕ
mover ident _ _ (locks w t m out l) = t
mover ident _ _ (names w t at) = t
mover ident _ _ (deepens w t at) = t
mover ident _ _ (lowers w t out own held) = t
mover ident _ _ (forgets w t depth at) = t
mover ident _ _ (releases w t at) = t

-- A run of `n` steps, all of them by the thread `t`.
pub data Runs (ident : ℕ → ℕ) (t : ℕ) : ℕ → Threads → Threads → Type 0 where
  rests : (w : Threads) → Runs ident t 0 w w
  goes_on :
      (n : ℕ) (w w' w'' : Threads)
      → Runs ident t n w w'
      → (step : Step ident w' w'') → mover ident w' w'' step ≡ t
      → Runs ident t (suc n) w w''

set_section_others :
    (cs cs' : Sections) (addr : ℕ) (s : Section)
    → set_section cs addr s ≡ cs'
    → (a : ℕ) → (a ≡ addr) ⊎ (cs' a ≡ cs a)
unfolding set_section
set_section_others cs cs' addr s e a = elim (Bool-cases (a == addr)) [
  | inl same ↦ inl (ground arith)
  | inr other ↦ inr (ap (λ (f : Sections). f a) (sym e) ∙ rw other refl)
]

-- A thread that moves back to where it was leaves every thread where it was.
moves_back :
    (w : Threads) (t : ℕ) (s s' s'' : Section) (p p' : Phase) (u : ℕ)
    → w.phase t ≡ outside
    → (moves (moves (moves w t s p) t s' p') t s'' outside).phase u ≡ w.phase u
unfolding moves
moves_back w t s s' s'' p p' u out = elim (Bool-cases (u == t)) [
  | inl e ↦ let same : u ≡ t = ground arith in rw e (sym out ∙ ap w.phase (sym same))
  | inr e ↦ rw e refl
]

-- An RtlEnterCriticalSection that does not block, by a thread that is in no call on the section, is
-- a run of three steps of that thread and no other, from where the threads are: it ends with the
-- section as the import leaves it, and with every thread where it was, the caller outside of both
-- calls. The import changes no other section.
pub rtl_enter_critical_section-Runs :
    (ident : ℕ → ℕ) (w : Threads) (cs cs' : Sections) (self guest_addr : ℕ)
    → w.section ≡ cs guest_addr
    → w.phase self ≡ outside
    → rtl_enter_critical_section cs self (ident self) guest_addr ≡ some cs'
    → (w' : Threads) × Runs ident self 3 w w'
      × (w'.section ≡ cs' guest_addr)
      × ((u : ℕ) → w'.phase u ≡ w.phase u)
      × ((a : ℕ) → (a ≡ guest_addr) ⊎ (cs' a ≡ cs a))
unfolding moves mover
rtl_enter_critical_section-Runs ident w cs cs' self guest_addr here out e =
    let (m, l, eq) = enter-inv cs cs' self (ident self) guest_addr e in
    let s1 : Section = record w.section { m = m } in
    let w1 = moves w self s1 locked in
    let w2 = moves w1 self (name_owner s1 (ident self)) named in
    let w3 = moves w2 self (deepen (name_owner s1 (ident self))) outside in
    (
      w3,
      goes_on 2 w w2 w3
          (goes_on 1 w w1 w2
            (goes_on 0 w w w1 (rests w) (locks w self m out (rw (ap (λ s. lock s.m self) here) l))
              refl)
            (names w1 self (moves_self w self s1 locked)) refl)
          (deepens w2 self (moves_self w1 self (name_owner s1 (ident self)) named)) refl,
      ap (λ s. deepen (name_owner (record s { m = m }) (ident self))) here
          ∙ sym (
              set_section_self cs guest_addr
                (deepen (name_owner (record (cs guest_addr) { m = m }) (ident self))))
          ∙ ap (λ (f : Sections). f guest_addr) eq,
      λ u.
          moves_back w self s1 (name_owner s1 (ident self)) (deepen (name_owner s1 (ident self)))
            locked named u out,
      set_section_others cs cs' guest_addr
          (deepen (name_owner (record (cs guest_addr) { m = m }) (ident self))) eq,
    )

-- An RtlLeaveCriticalSection by the thread that holds the section's mutex and is in no call on it
-- is three steps of that thread.
pub rtl_leave_critical_section-Reached :
    (ident : ℕ → ℕ) (n : ℕ) (w : Threads) (cs : Sections) (self guest_addr : ℕ)
    → Reached ident n w
    → w.section ≡ cs guest_addr
    → w.phase self ≡ outside
    → 0 < w.section.m.depth
    → w.section.m.owner ≡ self
    → (w' : Threads) × Reached ident (suc (suc (suc n))) w'
      × (w'.section ≡ rtl_leave_critical_section cs guest_addr guest_addr)
      × (w'.phase self ≡ outside)
unfolding moves rtl_leave_critical_section
rtl_leave_critical_section-Reached ident n w cs self guest_addr r here out held own =
    let s : Section = w.section in
    let w1 = moves w self (lower s) (lowered s.depth) in
    let w2 = moves w1 self (forget_owner (lower s) s.depth) forgotten in
    let w3 = moves w2 self (release (forget_owner (lower s) s.depth)) outside in
    (
      w3,
      next (suc (suc n)) w2 w3
          (next (suc n) w1 w2 (next n w w1 r (lowers w self out own held))
            (forgets w1 self s.depth (moves_self w self (lower s) (lowered s.depth))))
          (releases w2 self (moves_self w1 self (forget_owner (lower s) s.depth) forgotten)),
      ap (λ s. release (forget_owner (lower s) s.depth)) here
          ∙ sym (
              set_section_self cs guest_addr
                (release (forget_owner (lower (cs guest_addr)) (cs guest_addr).depth))),
      moves_self w2 self (release (forget_owner (lower s) s.depth)) outside,
    )
