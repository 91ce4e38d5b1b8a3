-- ===== src/XexInfo/Disasm/Labels.antt =====
-- What the first pass of `disasm` finds: where the function ends, and the labels in it.
use wosrecomp.Base.{
  ℕ, ◌<◌, ◌≡◌, ◌↔◌, inl, inr, refl, ap, ◌∙◌, sym, true, false, ◌==◌, Bool-cases, List, [], ◌∷◌,
  sort_by, Rising, sort_by-Rising, sort_by-Memᴰ, Memᴰ-behind, arith,
}
use mathlib.Core.List.{Memᴰ}
use mathlib.Core.Logic.Iff
use mathlib.Core.Path.{subst, subst⁻¹}
use wosrecomp.XexInfo.Disasm.{unique_from, unique_labels}

-- Each above `lo`, in strict order.
abbrev pub Strict : ℕ → List ℕ → Type 0
Strict lo [] = Unit
Strict lo (t ∷ ts) = (lo < t) × Strict t ts

abbrev pub IsStrict : List ℕ → Type 0
IsStrict [] = Unit
IsStrict (t ∷ ts) = Strict t ts

abbrev Same : List ℕ → List ℕ → Type 0
Same ts us = (t : ℕ) → Memᴰ t ts ↔ Memᴰ t us

module _ (t u : ℕ) (us : List ℕ) where
  unique_same : (t == u) ≡ true → unique_from t (u ∷ us) ≡ unique_from t us
  unfolding unique_from
  unique_same e = ground arith

  unique_next : (t == u) ≡ false → unique_from t (u ∷ us) ≡ t ∷ unique_from u us
  unfolding unique_from
  unique_next e = ground arith

unique-Strict :
    (t : ℕ) (ts : List ℕ)
    → Rising (λ u. u) t ts
    → (rest : List ℕ) × (unique_from t ts ≡ t ∷ rest) × Strict t rest
unique-Strict t [] r = ([], nothing_left t, tt)
  where
    nothing_left : (t : ℕ) → unique_from t [] ≡ t ∷ []
    nothing_left t = unfold unique_from in refl
unique-Strict t (u ∷ us) r = elim (Bool-cases (t == u)) [
  | inl e ↦
      let same : u ≡ t = ground arith in
      let (rest, q, s) = unique-Strict t us (subst (λ x. Rising (λ u. u) x us) same r.1) in
      (rest, unique_same t u us e ∙ q, s)
  | inr ne ↦
      let (rest, q, s) = unique-Strict u us r.1 in
      (u ∷ rest, unique_next t u us ne ∙ ap (λ l. t ∷ l) q, (ground (arith, r.0), s))
]

doubled :
    (v t u : ℕ) (us : List ℕ) {xs : List ℕ}
    → t ≡ u
    → Memᴰ v xs ↔ Memᴰ v (t ∷ us)
    → Memᴰ v xs ↔ Memᴰ v (t ∷ u ∷ us)
doubled v t u us same h = (
  λ m. elim (h.0 m) [ Memᴰ.head e ↦ Memᴰ.head e | Memᴰ.tail m' ↦ Memᴰ.tail (Memᴰ.tail m') ],
  λ m. h.1 (elim m [
    | Memᴰ.head e ↦ Memᴰ.head e
    | Memᴰ.tail (Memᴰ.head e) ↦ Memᴰ.head (e ∙ sym same)
    | Memᴰ.tail (Memᴰ.tail m') ↦ Memᴰ.tail m'
  ]),
)

unique-Same : (t : ℕ) (ts : List ℕ) → Same (unique_from t ts) (t ∷ ts)
unique-Same t [] v = unfold unique_from in (λ m. m, λ m. m)
unique-Same t (u ∷ us) v = elim (Bool-cases (t == u)) [
  | inl e ↦
      let same : t ≡ u = ground arith in
      rw (unique_same t u us e) (doubled v t u us same (unique-Same t us v))
  | inr ne ↦
      rw (unique_next t u us ne) (Memᴰ-behind v t (unique_from u us) (u ∷ us) (unique-Same u us v))
]

unique_lem :
    (ts : List ℕ) → Rising (λ t. t) 0 ts → IsStrict (unique_labels ts) × Same (unique_labels ts) ts
unfolding unique_labels
unique_lem [] r = (tt, λ t. (λ m. m, λ m. m))
unique_lem (t ∷ ts) r =
    let (rest, e, s) = unique-Strict t ts r.1 in (subst⁻¹ IsStrict e s, unique-Same t ts)

-- Labels in strict order, none twice, and with the same members as before.
pub tidy_labels :
    (ts : List ℕ)
    → IsStrict (unique_labels (sort_by (λ t. t) ts))
      × ((t : ℕ) → Memᴰ t (unique_labels (sort_by (λ t. t) ts)) ↔ Memᴰ t ts)
tidy_labels ts =
    let (s, same) = unique_lem (sort_by (λ t. t) ts) (sort_by-Rising (λ t. t) ts) in
    (s, λ t. Iff.trans (same t) (sort_by-Memᴰ (λ t. t) ts t))
