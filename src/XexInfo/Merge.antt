-- ===== src/XexInfo/Merge.antt =====
-- The declared extents do not overlap, and cover what was asked for.
use wosrecomp.Base.{
  ℕ, ◌+◌, ◌≤◌, ◌<◌, ◌⊎◌, inl, inr, ◌↔◌, ltb, ◌==◌, max, Bool-cases, ltb→lt, Option, none, some,
  List, [], ◌∷◌, arith,
}
use wosrecomp.XexInfo.{
  Image, PdataFunc, extent, widen, widen_some, widen_all, merge_from, merge, fix_switches,
}

-- Starts that grow strictly, all above `lo`; and extents each behind the one before it, from `lo`
-- on.
abbrev pub Sorted : ℕ → List (ℕ × ℕ) → Type 0
Sorted lo [] = Unit
Sorted lo ((s, e) ∷ m) = (lo ≤ s) × Sorted (s + 1) m

abbrev pub Disjoint : ℕ → List (ℕ × ℕ) → Type 0
Disjoint lo [] = Unit
Disjoint lo ((s, e) ∷ m) = (lo ≤ s) × Disjoint e m

-- An address lies in one of the extents.
abbrev pub Covers : List (ℕ × ℕ) → ℕ → Type 0
Covers [] a = ⊥
Covers ((s, e) ∷ m) a = ((s ≤ a) × (a < e)) ⊎ Covers m a

Sorted-mono : (lo lo' : ℕ) (m : List (ℕ × ℕ)) → lo' ≤ lo → Sorted lo m → Sorted lo' m
Sorted-mono lo lo' [] h s = tt
Sorted-mono lo lo' ((s', e') ∷ m) h s = (omega (arith, s.0), s.1)

widen-Sorted :
    (lo start end : ℕ) (m : List (ℕ × ℕ)) → lo ≤ start → Sorted lo m → Sorted lo (widen m start end)
unfolding widen
widen-Sorted lo start end [] h s = (h, tt)
widen-Sorted lo start end ((s', e') ∷ m) h s = elim (Bool-cases (s' == start)) [
  | inl b ↦ rw b s
  | inr b ↦ elim (Bool-cases (ltb start s')) [
    | inl c ↦ rw (b, c) (h, (ground (arith, c), s.1))
    | inr c ↦ rw (b, c) (s.0, widen-Sorted (s' + 1) start end m (ground (arith, b, c)) s.1)
  ]
]

Disjoint-merge_from : (lo s e : ℕ) (m : List (ℕ × ℕ)) → lo ≤ s → Disjoint lo (merge_from s e m)
unfolding merge_from
Disjoint-merge_from lo s e [] h = (h, tt)
Disjoint-merge_from lo s e ((s', e') ∷ m) h = elim (Bool-cases (ltb s' e)) [
  | inl b ↦ rw b (Disjoint-merge_from lo s (max e e') m h)
  | inr b ↦ rw b (h, Disjoint-merge_from e s' e' m (ground (arith, b)))
]

Covers-merge_from :
    (s e a : ℕ) (m : List (ℕ × ℕ))
    → Sorted s m
    → Covers (merge_from s e m) a ↔ (((s ≤ a) × (a < e)) ⊎ Covers m a)
unfolding merge_from
Covers-merge_from s e a [] h = ground arith
Covers-merge_from s e a ((s', e') ∷ m) h = elim (Bool-cases (ltb s' e)) [
  | inl b ↦ rw b (
      let rest =
        Covers-merge_from s (max e e') a m (Sorted-mono (s' + 1) s m (omega (arith, h.0)) h.1) in
      grind (arith, rest.0, rest.1, h.0, ltb→lt s' e b))
  | inr b ↦ rw b (
      let rest = Covers-merge_from s' e' a m (Sorted-mono (s' + 1) s' m (omega arith) h.1) in
      grind (arith, rest.0, rest.1))
]

widen_some-Sorted : (m : List (ℕ × ℕ)) (o : Option (ℕ × ℕ)) → Sorted 0 m → Sorted 0 (widen_some m o)
unfolding widen_some
widen_some-Sorted m none s = s
widen_some-Sorted m (some (start, end)) s = widen-Sorted 0 start end m (omega arith) s

widen_all-Sorted :
    (im : Image) (pdata : List PdataFunc) (switches : List (ℕ × List ℕ)) (m : List (ℕ × ℕ))
    → Sorted 0 m
    → Sorted 0 (widen_all im pdata switches m)
unfolding widen_all
widen_all-Sorted im pdata [] m s = s
widen_all-Sorted im pdata ((site, targets) ∷ switches) m s =
    widen_all-Sorted im pdata switches (widen_some m (extent im pdata site targets))
      (widen_some-Sorted m (extent im pdata site targets) s)

-- The table covers what it did, and the new extent.
Covers-widen :
    (m : List (ℕ × ℕ)) (s e a : ℕ) → Covers (widen m s e) a ↔ (((s ≤ a) × (a < e)) ⊎ Covers m a)
unfolding widen
Covers-widen [] s e a = ground arith
Covers-widen ((s', e') ∷ m) s e a = elim (Bool-cases (s' == s)) [
  | inl b ↦ rw b (grind (arith, b))
  | inr b ↦ elim (Bool-cases (ltb s s')) [
    | inl c ↦ rw (b, c) (grind arith)
    | inr c ↦ rw (b, c) (let rest = Covers-widen m s e a in grind (arith, rest.0, rest.1))
  ]
]

-- An address lies in an extent of one of the switches.
abbrev pub Asked : Option (ℕ × ℕ) → ℕ → Type 0
Asked none a = ⊥
Asked (some (s, e)) a = (s ≤ a) × (a < e)

abbrev pub AskedBy : Image → List PdataFunc → List (ℕ × List ℕ) → ℕ → Type 0
AskedBy im pdata [] a = ⊥
AskedBy im pdata ((site, targets) ∷ switches) a =
    Asked (extent im pdata site targets) a ⊎ AskedBy im pdata switches a

Covers-widen_some :
    (m : List (ℕ × ℕ)) (o : Option (ℕ × ℕ)) (a : ℕ)
    → Covers (widen_some m o) a ↔ (Asked o a ⊎ Covers m a)
unfolding widen_some
Covers-widen_some m none a = ground arith
Covers-widen_some m (some (s, e)) a = Covers-widen m s e a

Covers-widen_all :
    (im : Image) (pdata : List PdataFunc) (switches : List (ℕ × List ℕ)) (m : List (ℕ × ℕ)) (a : ℕ)
    → Covers (widen_all im pdata switches m) a ↔ (AskedBy im pdata switches a ⊎ Covers m a)
unfolding widen_all
Covers-widen_all im pdata [] m a = ground arith
Covers-widen_all im pdata ((site, targets) ∷ switches) m a =
    let o = extent im pdata site targets in
    let first = Covers-widen_some m o a in
    let rest = Covers-widen_all im pdata switches (widen_some m o) a in
    grind (arith, first.0, first.1, rest.0, rest.1)

-- What `merge` declares, for a table by ascending start: extents that do not overlap, over the same
-- addresses.
pub merge-lem :
    (m : List (ℕ × ℕ))
    → Sorted 0 m
    → Disjoint 0 (merge m) × ((a : ℕ) → Covers (merge m) a ↔ Covers m a)
unfolding merge
merge-lem [] s = (tt, λ a. ground arith)
merge-lem ((s', e') ∷ m) s = (
  Disjoint-merge_from 0 s' e' m s.0,
  λ a. Covers-merge_from s' e' a m (Sorted-mono (s' + 1) s' m (omega arith) s.1),
)

-- Whatever the image, the records and the switches, the extents declared do not overlap, and cover
-- the addresses of the switches' extents and no others.
pub fix_switches-Disjoint :
    (im : Image) (pdata : List PdataFunc) (switches : List (ℕ × List ℕ))
    → Disjoint 0 (fix_switches im pdata switches)
      × ((a : ℕ) → Covers (fix_switches im pdata switches) a ↔ AskedBy im pdata switches a)
unfolding fix_switches
fix_switches-Disjoint im pdata switches =
    let merged =
      merge-lem (widen_all im pdata switches []) (widen_all-Sorted im pdata switches [] tt) in
    (
      merged.0,
      λ a.
          let there = merged.1 a in
          let all = Covers-widen_all im pdata switches [] a in
          (
            (λ c. elim (all.0 (there.0 c)) [
              | inl asked ↦ asked
              | inr none_there ↦ absurd none_there
            ]),
            (λ c. there.1 (all.1 (inl c))),
          ),
    )
