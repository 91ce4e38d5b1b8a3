-- ===== src/XexInfo/SectionScan.antt =====
-- What the loop over one section of `findHelpers` lists.
use wosrecomp.Base.{
  ℕ, zero, suc, ◌+◌, ◌*◌, ◌≤◌, ◌<◌, ◌≡◌, ◌⊎◌, inl, inr, refl, ap, ◌∙◌, sym, Bool, true, false, leb,
  if◌then◌else◌, List, [], ◌∷◌, arith,
}
use mathlib.Core.List.{Memᴰ}
use wosrecomp.XexInfo.Helpers.{ImageSection, HelperPattern, total_bytes, matches, scan_section}

-- One turn of the loop: `b` for a pattern that fits, `c` for one that matches.
module _ (x a : ℕ) (rest : List ℕ) where
  abbrev pub one_turn : Bool → Bool → List ℕ
  one_turn b c = if b then (if c then x ∷ rest else rest) else []

  pub from_turn :
      (b c : Bool) → Memᴰ a (one_turn b c) → (b ≡ true) × (((c ≡ true) × (a ≡ x)) ⊎ Memᴰ a rest)
  from_turn true true (Memᴰ.head e) = (refl, inl (refl, e))
  from_turn true true (Memᴰ.tail m) = (refl, inr m)
  from_turn true false m = (refl, inr m)
  from_turn false c m = elim m [ ]

  pub into_turn : (b c : Bool) → b ≡ true → Memᴰ a rest → Memᴰ a (one_turn b c)
  into_turn true true h m = Memᴰ.tail m
  into_turn true false h m = m
  into_turn false c h m = ground arith

  pub at_turn : (b c : Bool) → b ≡ true → c ≡ true → a ≡ x → Memᴰ a (one_turn b c)
  at_turn true true h k e = Memᴰ.head e
  at_turn true false h k e = ground arith
  at_turn false c h k e = ground arith

module _ (pat : HelperPattern) (s : ImageSection) (d : ℕ → ℕ) where
  -- A match that the loop meets from `off` on.
  pub record Match (off a : ℕ) : Type 0 where
    pub steps : ℕ
    pub fits : off + 4 * steps + total_bytes pat ≤ s.size
    pub found : matches pat d (off + 4 * steps) ≡ true
    pub named : a ≡ s.base + (off + 4 * steps)

  later : (off a : ℕ) → Match (off + 4) a → Match off a
  later off a w =
      let e : off + 4 + 4 * w.steps ≡ off + 4 * suc w.steps = omega arith in
      record {
        steps = suc w.steps;
        fits = omega (arith, w.fits);
        found = ap (matches pat d) (sym e) ∙ w.found;
        named = w.named ∙ ap (λ x. s.base + x) e;
      }

  now :
      (off a : ℕ)
      → off + total_bytes pat ≤ s.size
      → matches pat d off ≡ true
      → a ≡ s.base + off
      → Match off a
  now off a fit ok e =
      let z : off + 4 * 0 ≡ off = omega arith in
      record {
        steps = 0;
        fits = omega arith;
        found = ap (matches pat d) z ∙ ok;
        named = omega (arith, e);
      }

  pub scan-finds : (fuel off a : ℕ) → Memᴰ a (scan_section fuel pat s d off) → Match off a
  unfolding scan_section
  scan-finds zero off a h = elim h [ ]
  scan-finds (suc fuel) off a h =
      let rest = scan_section fuel pat s d (off + 4) in
      let (fit, which) =
        from_turn (s.base + off) a rest (leb (off + total_bytes pat) s.size) (matches pat d off)
          h in
      elim which [
        | inl (ok, e) ↦ now off a (ground arith) ok e
        | inr m ↦ later off a (scan-finds fuel (off + 4) a m)
      ]

  pub scan-complete :
      (fuel off a steps : ℕ)
      → s.size < off + 4 * fuel
      → off + 4 * steps + total_bytes pat ≤ s.size
      → matches pat d (off + 4 * steps) ≡ true
      → a ≡ s.base + (off + 4 * steps)
      → Memᴰ a (scan_section fuel pat s d off)
  unfolding scan_section
  scan-complete zero off a steps enough fits found named = ground arith
  scan-complete (suc fuel) off a zero enough fits found named =
      let z : off + 4 * 0 ≡ off = omega arith in
      at_turn (s.base + off) a (scan_section fuel pat s d (off + 4))
        (leb (off + total_bytes pat) s.size) (matches pat d off) (ground arith)
        (ap (matches pat d) (sym z) ∙ found) (omega arith)
  scan-complete (suc fuel) off a (suc steps) enough fits found named =
      let e : off + 4 + 4 * steps ≡ off + 4 * suc steps = omega arith in
      into_turn (s.base + off) a (scan_section fuel pat s d (off + 4))
        (leb (off + total_bytes pat) s.size) (matches pat d off) (ground arith)
        (scan-complete fuel (off + 4) a steps (omega arith) (omega arith)
          (ap (matches pat d) e ∙ found) (omega arith))
