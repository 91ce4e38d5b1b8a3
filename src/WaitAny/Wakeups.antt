-- ===== src/WaitAny/Wakeups.antt =====
-- No signal is lost between a look at the events and the sleep that follows it.
use wosrecomp.Base.{
  Bool-cases, ℕ, suc, ◌+◌, ◌^◌, ◌≤◌, ◌<◌, ◌≡◌, ◌≢◌, ◌⊎◌, inl, inr, true, false, arith, u64,
}
use wosrecomp.WaitAny.{
  Waiter, starting, trying, sleeping, taken, World, with_flag, set_flag, bump, take, at, Step, sets,
  bumps, clears, takes, looks, finds, misses, sleeps, wakes, Reached, start, next,
}

-- A signal that the waiter has passed by is still to be announced, or has been since it looked.
abbrev Announced : World → ℕ → ℕ → Type 0
Announced w g i = (j : ℕ) → j < i → w.signalled j ≡ true → (g < w.generation) ⊎ (0 < w.half_set)

abbrev Safe : ℕ → World → Waiter → Type 0
Safe count w starting = Unit
Safe count w (trying g i) = (g ≤ w.generation) × Announced w g i
Safe count w (sleeping g) = (g ≤ w.generation) × Announced w g count
Safe count w (taken i) = Unit

-- What holds in every world that is reached in `n` steps.
record Invariant (count n : ℕ) (w : World) : Type 0 where
  counted : w.generation ≤ n
  safe : Safe count w w.waiter

-- A step of another thread keeps what the waiter relies on.
module _ (count : ℕ) (w w' : World) (later : w.generation ≤ w'.generation)
    (kept : (j : ℕ)
      → w'.signalled j ≡ true
      → ((w.signalled j ≡ true)
          × ((0 < w.half_set) → (w.generation < w'.generation) ⊎ (0 < w'.half_set)))
        ⊎ (0 < w'.half_set)) where
  Safe-later : (p : Waiter) → Safe count w p → Safe count w' p
  Safe-later starting s = tt
  Safe-later (trying g i) s = (omega (arith, s.0), λ j l on. grind (arith, kept j on, s.1 j l))
  Safe-later (sleeping g) s = (omega (arith, s.0), λ j l on. grind (arith, kept j on, s.1 j l))
  Safe-later (taken i) s = tt

-- Consuming a signal leaves fewer flags set.
take-Safe :
    (count : ℕ) (w : World) (i : ℕ)
    → Safe count w w.waiter
    → Safe count (take w i) (take w i).waiter
unfolding take with_flag
take-Safe count w i s = elim (Bool-cases (w.manual_reset i)) [
  | inl e ↦ rw e s
  | inr e ↦ rw e (
      Safe-later count w (with_flag w i false) (omega arith)
        (λ j on. inl (ground (arith, on), λ h. inr h)) w.waiter s)
]

take-generation : (w : World) (i : ℕ) → (take w i).generation ≡ w.generation
unfolding take with_flag
take-generation w i = ground arith

Invariant-Step :
    (count n : ℕ) (w w' : World)
    → suc n < 2 ^ 64
    → Invariant count n w
    → Step count w w'
    → Invariant count (suc n) w'
unfolding set_flag bump with_flag take at
Invariant-Step count n w _ small v (sets _ i) = record {
  counted = omega (arith, v);
  safe =
      Safe-later count w (set_flag w i) (omega arith) (λ j on. inr (omega arith)) w.waiter v.safe;
}
Invariant-Step count n w _ small v (bumps _ half) =
    let next_one : u64 (w.generation + 1) ≡ w.generation + 1 = omega (arith, v) in
    record {
      counted = omega (arith, v);
      safe =
          Safe-later count w (bump w) (omega (arith, next_one))
            (λ j on. inl (on, λ h. inl (omega (arith, next_one)))) w.waiter v.safe;
    }
Invariant-Step count n w _ small v (clears _ i) = record {
  counted = omega (arith, v);
  safe =
      Safe-later count w (with_flag w i false) (omega arith)
        (λ j on. inl (ground (arith, on), λ h. inr h)) w.waiter v.safe;
}
Invariant-Step count n w _ small v (takes _ i on_i) = record {
  counted = omega (arith, v, take-generation w i);
  safe = take-Safe count w i v.safe;
}
Invariant-Step count n w _ small v (looks _ e) = record {
  counted = omega (arith, v);
  safe = (omega arith, λ j l on. absurd (omega arith));
}
Invariant-Step count n w _ small v (finds _ g i e l on_i) = record {
  counted = omega (arith, v, take-generation w i);
  safe = tt;
}
Invariant-Step count n w _ small v (misses _ g i e l off) =
    let s : Safe count w (trying g i) = rw e at v.safe in
    record { counted = omega (arith, v); safe = (s.0, λ j l' on. grind (arith, s.1 j, on, off)) }
Invariant-Step count n w _ small v (sleeps _ g e) =
    let s : Safe count w (trying g count) = rw e at v.safe in
    record { counted = omega (arith, v); safe = s }
Invariant-Step count n w _ small v (wakes _ g e ne) = record {
  counted = omega (arith, v);
  safe = tt;
}

reached-Invariant : (count n : ℕ) (w : World) → n < 2 ^ 64 → Reached count n w → Invariant count n w
reached-Invariant count n w small (start _ e g h) = record {
  counted = omega (arith, g);
  safe = rw e tt;
}
reached-Invariant count _ w small (next n w₀ _ r s) =
    Invariant-Step count n w₀ w small (reached-Invariant count n w₀ (omega arith) r) s

-- In fewer than 2 ^ 64 steps no wake-up is lost: when no thread is halfway through signalling and
-- one of the waiter's events is signalled, the condition that a sleeping waiter waits for holds.
pub no_lost_wakeup :
    (count n : ℕ) (w : World) (g i : ℕ)
    → n < 2 ^ 64
    → Reached count n w
    → w.waiter ≡ sleeping g
    → w.half_set ≡ 0
    → i < count
    → w.signalled i ≡ true
    → w.generation ≢ g
no_lost_wakeup count n w g i small r asleep settled inside on =
    let safe : Safe count w (sleeping g) =
      rw asleep at (reached-Invariant count n w small r).safe in
    λ e. grind (arith, safe.1 i inside on)
