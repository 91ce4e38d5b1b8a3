-- ===== src/Base/Sorting.antt =====
-- `std::sort` by a number: of elements with one number it may give either order; here the one that
-- came first stays first.
use Prim.Native.Nat.{ℕ, suc, ◌≤◌}
use mathlib.Core.Path.{◌≡◌, refl, ap, ◌∙◌}
use wosrecomp.Base.Lists.{length}
use mathlib.Core.Logic.{◌↔◌, inl, inr}
use mathlib.Core.Logic.Iff
use mathlib.Core.List.{List, [], ◌∷◌, Memᴰ}
use native.Mathlib.Omega.{arith}
use wosrecomp.Base.Tests.{leb, if◌then◌else◌, Bool-cases}

module _ {ℓ} {A : Type ℓ} (key : A → ℕ) where
  unfoldable pub insert_by : A → List A → List A
  insert_by x [] = x ∷ []
  insert_by x (y ∷ ys) =
      let rest = insert_by x ys in if leb (key x) (key y) then x ∷ y ∷ ys else y ∷ rest

  unfoldable pub sort_by : List A → List A
  sort_by [] = []
  sort_by (x ∷ xs) = insert_by x (sort_by xs)

  -- Each at or above `lo`, in order.
  abbrev pub Rising : ℕ → List A → Type 0
  Rising lo [] = Unit
  Rising lo (x ∷ xs) = (lo ≤ key x) × Rising (key x) xs

  insert_by-Rising :
      (lo : ℕ) (x : A) (xs : List A) → lo ≤ key x → Rising lo xs → Rising lo (insert_by x xs)
  unfolding insert_by
  insert_by-Rising lo x [] h r = (h, tt)
  insert_by-Rising lo x (y ∷ ys) h r = elim (Bool-cases (leb (key x) (key y))) [
    | inl le ↦ rw le (h, (ground arith, r.1))
    | inr gt ↦ rw gt (r.0, insert_by-Rising (key y) x ys (ground arith) r.1)
  ]

  insert_by-length : (x : A) (xs : List A) → length (insert_by x xs) ≡ suc (length xs)
  unfolding insert_by
  insert_by-length x [] = refl
  insert_by-length x (y ∷ ys) = elim (Bool-cases (leb (key x) (key y))) [
    | inl le ↦ rw le refl
    | inr gt ↦ rw gt (ap suc (insert_by-length x ys))
  ]

  pub sort_by-length : (xs : List A) → length (sort_by xs) ≡ length xs
  unfolding sort_by
  sort_by-length [] = refl
  sort_by-length (x ∷ xs) = insert_by-length x (sort_by xs) ∙ ap suc (sort_by-length xs)

  pub sort_by-Rising : (xs : List A) → Rising 0 (sort_by xs)
  unfolding sort_by
  sort_by-Rising [] = tt
  sort_by-Rising (x ∷ xs) = insert_by-Rising 0 x (sort_by xs) (omega arith) (sort_by-Rising xs)

module _ {ℓ} {A : Type ℓ} where
  -- Lists with the same members, each behind one element.
  pub Memᴰ-behind :
      (a x : A) (xs ys : List A) → Memᴰ a xs ↔ Memᴰ a ys → Memᴰ a (x ∷ xs) ↔ Memᴰ a (x ∷ ys)
  Memᴰ-behind a x xs ys h = (
    λ m. elim m [ Memᴰ.head e ↦ Memᴰ.head e | Memᴰ.tail m' ↦ Memᴰ.tail (h.0 m') ],
    λ m. elim m [ Memᴰ.head e ↦ Memᴰ.head e | Memᴰ.tail m' ↦ Memᴰ.tail (h.1 m') ],
  )

  Memᴰ-second :
      (a x y : A) (ys zs : List A)
      → Memᴰ a zs ↔ Memᴰ a (x ∷ ys)
      → Memᴰ a (y ∷ zs) ↔ Memᴰ a (x ∷ y ∷ ys)
  Memᴰ-second a x y ys zs h = (into, out)
    where
      into : Memᴰ a (y ∷ zs) → Memᴰ a (x ∷ y ∷ ys)
      into (Memᴰ.head e) = Memᴰ.tail (Memᴰ.head e)
      into (Memᴰ.tail m) = elim (h.0 m) [
        | Memᴰ.head e ↦ Memᴰ.head e
        | Memᴰ.tail m' ↦ Memᴰ.tail (Memᴰ.tail m')
      ]

      out : Memᴰ a (x ∷ y ∷ ys) → Memᴰ a (y ∷ zs)
      out (Memᴰ.head e) = Memᴰ.tail (h.1 (Memᴰ.head e))
      out (Memᴰ.tail (Memᴰ.head e)) = Memᴰ.head e
      out (Memᴰ.tail (Memᴰ.tail m)) = Memᴰ.tail (h.1 (Memᴰ.tail m))

  module _ (key : A → ℕ) where
    insert_by-Memᴰ : (x : A) (xs : List A) (a : A) → Memᴰ a (insert_by key x xs) ↔ Memᴰ a (x ∷ xs)
    unfolding insert_by
    insert_by-Memᴰ x [] a = (λ m. m, λ m. m)
    insert_by-Memᴰ x (y ∷ ys) a = elim (Bool-cases (leb (key x) (key y))) [
      | inl le ↦ rw le (λ m. m, λ m. m)
      | inr gt ↦ rw gt (Memᴰ-second a x y ys (insert_by key x ys) (insert_by-Memᴰ x ys a))
    ]

    pub sort_by-Memᴰ : (xs : List A) (a : A) → Memᴰ a (sort_by key xs) ↔ Memᴰ a xs
    unfolding sort_by
    sort_by-Memᴰ [] a = (λ m. m, λ m. m)
    sort_by-Memᴰ (x ∷ xs) a =
        Iff.trans (insert_by-Memᴰ x (sort_by key xs) a)
          (Memᴰ-behind a x (sort_by key xs) xs (sort_by-Memᴰ xs a))
