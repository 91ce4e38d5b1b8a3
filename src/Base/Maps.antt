-- ===== src/Base/Maps.antt =====
-- `unordered_map` as an association list: the first entry of a key counts.
use Prim.Native.Nat.{ℕ, ◌<◌}
use mathlib.Core.Path.{◌≡◌, refl}
use mathlib.Core.Logic.{◌≢◌, inl, inr}
use mathlib.Core.List.{List, [], ◌∷◌}
use mathlib.Core.Option.{Option, none, some}
use native.Mathlib.Omega.{arith}
use wosrecomp.Base.Tests.{◌==◌, if◌then◌else◌, ==_self, ==_of_ne, Bool-cases}
use wosrecomp.Base.Lists.{All}

module _ {ℓ} {A : Type ℓ} where
  abbrev pub find : List (ℕ × A) → ℕ → Option A
  find [] k = none
  find ((k', v) ∷ m) k = if k' == k then some v else find m k

  abbrev pub put : List (ℕ × A) → ℕ → A → List (ℕ × A)
  put [] k v = (k, v) ∷ []
  put ((k', w) ∷ m) k v = if k' == k then (k, v) ∷ m else (k', w) ∷ put m k v

  abbrev pub erase : List (ℕ × A) → ℕ → List (ℕ × A)
  erase [] k = []
  erase ((k', w) ∷ m) k = let rest = erase m k in if k' == k then rest else (k', w) ∷ rest

  pub find-put_self : (m : List (ℕ × A)) (k : ℕ) (v : A) → find (put m k v) k ≡ some v
  find-put_self [] k v = rw (==_self k) refl
  find-put_self ((k', w) ∷ m) k v = elim (Bool-cases (k' == k)) [
    | inl e ↦ rw (e, ==_self k) refl
    | inr e ↦ rw (e, e) (find-put_self m k v)
  ]

  pub find-put_ne : (m : List (ℕ × A)) (k j : ℕ) (v : A) → k ≢ j → find (put m k v) j ≡ find m j
  find-put_ne [] k j v h = rw (==_of_ne k j h) refl
  find-put_ne ((k', w) ∷ m) k j v h = ground (arith, find-put_ne m k j v h)

  pub find-erase_self : (m : List (ℕ × A)) (k : ℕ) → find (erase m k) k ≡ none
  find-erase_self [] k = refl
  find-erase_self ((k', w) ∷ m) k = ground (arith, find-erase_self m k)

  pub find-erase_ne : (m : List (ℕ × A)) (k j : ℕ) → k ≢ j → find (erase m k) j ≡ find m j
  find-erase_ne [] k j h = refl
  find-erase_ne ((k', w) ∷ m) k j h = ground (arith, find-erase_ne m k j h)

  -- Every key of the map satisfies the predicate.
  pub All-put {κ} :
      (P : ℕ × A → Type κ) (m : List (ℕ × A)) (k : ℕ) (v : A)
      → All P m
      → P (k, v)
      → All P (put m k v)
  All-put P [] k v h p = (p, tt)
  All-put P ((k', w) ∷ m) k v h p = elim (Bool-cases (k' == k)) [
    | inl e ↦ rw e (p, h.1)
    | inr e ↦ rw e (h.0, All-put P m k v h.1 p)
  ]

  pub All-erase {κ} : (P : ℕ × A → Type κ) (m : List (ℕ × A)) (k : ℕ) → All P m → All P (erase m k)
  All-erase P [] k h = tt
  All-erase P ((k', w) ∷ m) k h = elim (Bool-cases (k' == k)) [
    | inl e ↦ rw e (All-erase P m k h.1)
    | inr e ↦ rw e (h.0, All-erase P m k h.1)
  ]

-- A key above all keys is not there.
pub find_fresh {ℓ} :
    {A : Type ℓ} (m : List (ℕ × A)) (k : ℕ) → All (λ e. e.0 < k) m → find m k ≡ none
find_fresh [] k h = refl
find_fresh ((k', v) ∷ m) k h = ground (arith, h, find_fresh m k)
