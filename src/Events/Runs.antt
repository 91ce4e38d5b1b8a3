-- ===== src/Events/Runs.antt =====
-- Events under any interleaving of setters, clearers and waiters.
use wosrecomp.Base.{
  ℕ, ◌+◌, ◌≤◌, ◌≡◌, refl, Bool, true, false, if◌then◌else◌, none, some, List, [], ◌∷◌, arith,
}
use wosrecomp.Events.{Event, Timeout, signal, clear, consume, try_consume, begin_wait, end_wait}

-- One operation of some thread on an event. A poll is one of `WaitAny`; a look is the last of
-- `Wait`.
pub data Act : Type 0 where
  set_by : ℕ → Act
  clear_by : Act
  poll : Act
  enter : Act
  look : Timeout → Act

-- The event after an operation, and whether it satisfied a wait.
unfoldable pub act : Event → Act → Bool × Event
act e (set_by site) = (false, signal e site)
act e clear_by = (false, clear e)
act e poll = try_consume e
act e enter = (false, begin_wait e)
act e (look timeout) = elim (end_wait e timeout) [ none ↦ (false, e) | some r ↦ r ]

abbrev pub one : Bool → ℕ
one b = if b then 1 else 0

-- The waits that a run satisfies.
unfoldable pub satisfied : Event → List Act → ℕ
satisfied e [] = 0
satisfied e (a ∷ acts) = one (act e a).0 + satisfied (act e a).1 acts

abbrev pub set_count : List Act → ℕ
set_count [] = 0
set_count (set_by site ∷ acts) = 1 + set_count acts
set_count (clear_by ∷ acts) = set_count acts
set_count (poll ∷ acts) = set_count acts
set_count (enter ∷ acts) = set_count acts
set_count (look timeout ∷ acts) = set_count acts

-- Whatever the interleaving of the operations on an auto-reset event, they satisfy at most as
-- many waits as it is signalled times, one more if it was signalled at the start.
pub satisfied-bounded :
    (e : Event) (acts : List Act)
    → e.manual_reset ≡ false
    → satisfied e acts ≤ one e.signalled + set_count acts
unfolding satisfied act signal clear consume try_consume begin_wait end_wait
satisfied-bounded e [] auto = omega arith
satisfied-bounded e (set_by site ∷ acts) auto =
    ground (arith, satisfied-bounded (signal e site) acts auto)
satisfied-bounded e (clear_by ∷ acts) auto = ground (arith, satisfied-bounded (clear e) acts auto)
satisfied-bounded e (poll ∷ acts) auto = ground (arith, satisfied-bounded (act e poll).1 acts)
satisfied-bounded e (enter ∷ acts) auto = omega (arith, satisfied-bounded (begin_wait e) acts auto)
satisfied-bounded e (look timeout ∷ acts) auto =
    ground (arith, satisfied-bounded (act e (look timeout)).1 acts)

-- The operations of a run that wait.
abbrev pub tries : List Act → ℕ
tries [] = 0
tries (set_by site ∷ acts) = tries acts
tries (clear_by ∷ acts) = tries acts
tries (poll ∷ acts) = 1 + tries acts
tries (enter ∷ acts) = tries acts
tries (look timeout ∷ acts) = 1 + tries acts

abbrev pub NoClear : List Act → Type 0
NoClear [] = Unit
NoClear (set_by site ∷ acts) = NoClear acts
NoClear (clear_by ∷ acts) = ⊥
NoClear (poll ∷ acts) = NoClear acts
NoClear (enter ∷ acts) = NoClear acts
NoClear (look timeout ∷ acts) = NoClear acts

-- A manual-reset event that is signalled satisfies every wait of a run that does not clear it.
pub satisfied-manual :
    (e : Event) (acts : List Act)
    → e.manual_reset ≡ true
    → e.signalled ≡ true
    → NoClear acts
    → satisfied e acts ≡ tries acts
unfolding satisfied act signal consume try_consume begin_wait end_wait
satisfied-manual e [] manual on calm = refl
satisfied-manual e (set_by site ∷ acts) manual on calm =
    omega (arith, satisfied-manual (signal e site) acts manual refl calm)
satisfied-manual e (clear_by ∷ acts) manual on calm = absurd calm
satisfied-manual e (poll ∷ acts) manual on calm = ground (arith, satisfied-manual (consume e) acts)
satisfied-manual e (enter ∷ acts) manual on calm =
    omega (arith, satisfied-manual (begin_wait e) acts manual on calm)
satisfied-manual e (look timeout ∷ acts) manual on calm =
    ground (arith, satisfied-manual (consume e) acts)
