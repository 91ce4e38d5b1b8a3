-- ===== src/Sections/Exclusion.antt =====
-- One thread at a time is inside a critical section, and the section records who.
use wosrecomp.Base.{
  ℕ, suc, ◌+◌, ◌^◌, ◌≤◌, ◌<◌, ◌≡◌, ◌≢◌, ◌⊎◌, inl, inr, some, arith, Bool-cases, ◌==◌, refl,
}
use wosrecomp.Events.{Mutant, lock, unlock}
use wosrecomp.Sections.{
  Section, name_owner, deepen, lower, at_most_one, forget_owner, release, Phase, outside, locked,
  named, lowered, forgotten, Threads, moves, Step, locks, names, deepens, lowers, forgets, releases,
  Reached, start, next,
}

-- Thread `t` holds the section's mutex.
abbrev pub Holds : Section → ℕ → Type 0
Holds s t = (0 < s.m.depth) × (s.m.owner ≡ t)

-- What the section shows while a thread is in a phase.
abbrev Fits : (ℕ → ℕ) → Section → ℕ → Phase → Type 0
Fits ident s t outside =
    ((s.m.depth ≢ 0) ⊎ ((s.owner ≡ 0) × (s.depth ≡ 0)))
    × ((s.m.depth ≡ 0) ⊎ (s.m.owner ≢ t) ⊎ ((s.owner ≡ ident t) × (s.depth ≡ s.m.depth)))
Fits ident s t locked = Holds s t × (s.m.depth ≡ s.depth + 1)
Fits ident s t named = Holds s t × (s.m.depth ≡ s.depth + 1) × (s.owner ≡ ident t)
Fits ident s t (lowered depth) =
    Holds s t × (s.m.depth ≡ s.depth + 1) × (s.owner ≡ ident t) × (depth ≡ s.m.depth)
Fits ident s t forgotten =
    Holds s t
    × (s.m.depth ≡ s.depth + 1)
    × (((s.depth ≡ 0) × (s.owner ≡ 0)) ⊎ ((s.depth ≢ 0) × (s.owner ≡ ident t)))

record Invariant (ident : ℕ → ℕ) (n : ℕ) (w : Threads) : Type 0 where
  counted : w.section.m.depth ≤ n
  fits : (t : ℕ) → Fits ident w.section t (w.phase t)

-- A step of the thread `t`, which has the mutex or takes it while it is free, fits every thread.
module _ (ident : ℕ → ℕ) (w : Threads) (t : ℕ) (s : Section) (p : Phase)
    (before : (w.section.m.depth ≡ 0) ⊎ (w.section.m.owner ≡ t)) (after : s.m.owner ≡ t)
    (resets : (s.m.depth ≢ 0) ⊎ ((s.owner ≡ 0) × (s.depth ≡ 0))) where
  Fits-other : (u : ℕ) (q : Phase) → u ≢ t → Fits ident w.section u q → Fits ident s u q
  Fits-other u outside ne f = (resets, inr (inl (λ e. ne (omega (arith, after)))))
  Fits-other u locked ne f = grind arith
  Fits-other u named ne f = grind arith
  Fits-other u (lowered depth) ne f = grind arith
  Fits-other u forgotten ne f = grind arith

  moves-Fits :
      ((u : ℕ) → Fits ident w.section u (w.phase u))
      → Fits ident s t p
      → (u : ℕ) → Fits ident s u ((moves w t s p).phase u)
  unfolding moves
  moves-Fits fits own u = elim (Bool-cases (u == t)) [
    | inl e ↦ let same : u ≡ t = ground (arith, e) in rw (e, same) own
    | inr e ↦ rw e (Fits-other u (w.phase u) (λ same. ground (arith, same, e)) (fits u))
  ]

lock-inv :
    (m m' : Mutant) (t : ℕ)
    → lock m t ≡ some m'
    → ((m.depth ≡ 0) ⊎ (m.owner ≡ t)) × (m'.owner ≡ t) × (m'.depth ≡ m.depth + 1)
unfolding lock
lock-inv m m' t l = grind (arith, l)

Invariant-Step :
    (ident : ℕ → ℕ) (n : ℕ) (w w' : Threads)
    → suc n < 2 ^ 31
    → Invariant ident n w
    → Step ident w w'
    → Invariant ident (suc n) w'
unfolding moves name_owner deepen lower forget_owner release at_most_one lock unlock
Invariant-Step ident n w _ small v (locks _ t m e l) =
    let f : Fits ident w.section t outside = rw e at (v.fits t) in
    let (before, after, more) = lock-inv w.section.m m t l in
    record {
      counted = omega (arith, v, more);
      fits =
          moves-Fits ident w t (record w.section { m = m }) locked before after
            (inl (omega (arith, more))) v.fits
            ((omega (arith, more), after), grind (arith, f, more, before));
    }
Invariant-Step ident n w _ small v (names _ t e) =
    let f : Fits ident w.section t locked = rw e at (v.fits t) in
    record {
      counted = omega (arith, v);
      fits =
          moves-Fits ident w t (name_owner w.section (ident t)) named (inr f.0.1) f.0.1
            (inl (omega (arith, f))) v.fits (f.0, f.1, refl);
    }
Invariant-Step ident n w _ small v (deepens _ t e) =
    let f : Fits ident w.section t named = rw e at (v.fits t) in
    record {
      counted = omega (arith, v);
      fits =
          moves-Fits ident w t (deepen w.section) outside (inr f.0.1) f.0.1 (inl (omega (arith, f)))
            v.fits (inl (omega (arith, f)), inr (inr (f.2, omega (arith, f, v))));
    }
Invariant-Step ident n w _ small v (lowers _ t e held pos) =
    let f : Fits ident w.section t outside = rw e at (v.fits t) in
    record {
      counted = omega (arith, v);
      fits =
          moves-Fits ident w t (lower w.section) (lowered w.section.depth) (inr held) held
            (inl (omega arith)) v.fits (grind (arith, f, v));
    }
Invariant-Step ident n w _ small v (forgets _ t depth e) =
    let f : Fits ident w.section t (lowered depth) = rw e at (v.fits t) in
    record {
      counted = ground (arith, v);
      fits =
          moves-Fits ident w t (forget_owner w.section depth) forgotten (inr f.0.1)
            (ground (arith, f)) (inl (ground (arith, f))) v.fits (grind (arith, f, v));
    }
Invariant-Step ident n w _ small v (releases _ t e) =
    let f : Fits ident w.section t forgotten = rw e at (v.fits t) in
    record {
      counted = omega (arith, v);
      fits =
          moves-Fits ident w t (release w.section) outside (inr f.0.1) f.0.1 (grind (arith, f))
            v.fits (grind (arith, f));
    }

reached-Invariant :
    (ident : ℕ → ℕ) (n : ℕ) (w : Threads) → n < 2 ^ 31 → Reached ident n w → Invariant ident n w
reached-Invariant ident _ _ small start = record {
  counted = omega arith;
  fits = λ t. (inr (refl, refl), inl refl);
}
reached-Invariant ident _ w small (next n w₀ _ r s) =
    Invariant-Step ident n w₀ w small (reached-Invariant ident n w₀ (omega arith) r) s

Fits-Holds :
    (ident : ℕ → ℕ) (s : Section) (t : ℕ) (p : Phase) → p ≢ outside → Fits ident s t p → Holds s t
Fits-Holds ident s t outside ne f = absurd (ne refl)
Fits-Holds ident s t locked ne f = f.0
Fits-Holds ident s t named ne f = f.0
Fits-Holds ident s t (lowered depth) ne f = f.0
Fits-Holds ident s t forgotten ne f = f.0

-- In fewer than 2 ^ 31 steps, a thread that is between two steps of entering or leaving the section
-- holds its mutex, so that two such threads are one.
pub inside_one :
    (ident : ℕ → ℕ) (n : ℕ) (w : Threads) (t u : ℕ)
    → n < 2 ^ 31
    → Reached ident n w
    → w.phase t ≢ outside
    → w.phase u ≢ outside
    → Holds w.section t × (t ≡ u)
inside_one ident n w t u small r t_in u_in =
    let v = reached-Invariant ident n w small r in
    let holds = Fits-Holds ident w.section t (w.phase t) t_in (v.fits t) in
    let holds' = Fits-Holds ident w.section u (w.phase u) u_in (v.fits u) in
    (holds, omega (arith, holds.1, holds'.1))

-- In fewer than 2 ^ 31 steps, and while the mutex's last holder is not between two steps of a call,
-- the section's record is right: a free mutex shows the owner 0 and the depth 0, a held one its
-- holder's identifier and how often it is held.
pub record_is_right :
    (ident : ℕ → ℕ) (n : ℕ) (w : Threads)
    → n < 2 ^ 31
    → Reached ident n w
    → w.phase w.section.m.owner ≡ outside
    → ((w.section.m.depth ≡ 0) × (w.section.owner ≡ 0) × (w.section.depth ≡ 0))
      ⊎ ((0 < w.section.m.depth)
          × (w.section.owner ≡ ident w.section.m.owner)
          × (w.section.depth ≡ w.section.m.depth))
record_is_right ident n w small r out =
    let f : Fits ident w.section w.section.m.owner outside =
      rw out at ((reached-Invariant ident n w small r).fits w.section.m.owner) in
    grind (arith, f)
