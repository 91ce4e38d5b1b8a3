-- ===== src/XexInfo/Listing/Sites.antt =====
-- Which sites a listing has.
use wosrecomp.Base.{
  ℕ, zero, suc, ◌+◌, ◌*◌, ◌/◌, ◌^◌, ◌≤◌, ◌<◌, ◌≡◌, ◌↔◌, inl, inr, refl, ap, ◌∙◌, Bool, true, false,
  ◌&&◌, not, leb, if◌then◌else◌, Option, none, some, List, [], ◌∷◌, All, arith, u32,
}
use mathlib.Core.List.{Memᴰ}
use mathlib.Core.List.Memᴰ
use mathlib.Core.Path.{subst, subst⁻¹}
use wosrecomp.XexImage.{XexSection, XexImage, big_word, backed_size}
use wosrecomp.XexImage.Backed.{backed_from-inside, backed_size-some, backed_size-le}
use wosrecomp.XexInfo.SectionScan.{from_turn, into_turn, at_turn}
use wosrecomp.XexInfo.Listing.{Test, word_sites, section_sites, sites}

module _ (test : Test) (host : ℕ → ℕ) (base p limit : ℕ) (small : limit + 4 < 2 ^ 32) where
  -- A word that passes the test, from the offset `off` on.
  record Found (off a : ℕ) : Type 0 where
    steps : ℕ
    fits : off + 4 * steps + 4 ≤ limit
    named : a ≡ u32 (base + (off + 4 * steps))
    passes : test (u32 (base + (off + 4 * steps))) (big_word host (p + (off + 4 * steps))) ≡ true

  module _ (off a : ℕ) where
    later : Found (off + 4) a → Found off a
    later w =
        let e : off + 4 + 4 * w.steps ≡ off + 4 * suc w.steps = omega arith in
        record {
          steps = suc w.steps;
          fits = omega (arith, w.fits);
          named = w.named ∙ ap (λ o. u32 (base + o)) e;
          passes = subst (λ o. test (u32 (base + o)) (big_word host (p + o)) ≡ true) e w.passes;
        }

    now :
        off + 4 ≤ limit
        → test (u32 (base + off)) (big_word host (p + off)) ≡ true
        → a ≡ u32 (base + off)
        → Found off a
    now fit ok e =
        let z : off ≡ off + 4 * 0 = omega arith in
        record {
          steps = 0;
          fits = omega (arith, fit);
          named = e ∙ ap (λ o. u32 (base + o)) z;
          passes = subst (λ o. test (u32 (base + o)) (big_word host (p + o)) ≡ true) z ok;
        }

  word_sites-finds :
      (fuel off a : ℕ)
      → off ≤ limit
      → Memᴰ a (word_sites fuel test host base p limit off)
      → Found off a
  unfolding word_sites
  word_sites-finds zero off a low h = elim h [ ]
  word_sites-finds (suc fuel) off a low h =
      let site : ℕ = u32 (base + off) in
      let next : u32 (off + 4) ≡ off + 4 = omega arith in
      let rest = word_sites fuel test host base p limit (u32 (off + 4)) in
      let (fit, which) =
        from_turn site a rest (leb (u32 (off + 4)) limit) (test site (big_word host (p + off))) h in
      let fit' : off + 4 ≤ limit = ground arith in
      elim which [
        | inl (ok, e) ↦ now off a fit' ok e
        | inr m ↦ later off a (word_sites-finds fuel (off + 4) a fit' (rw next at m))
      ]

  word_sites-complete :
      (fuel off a : ℕ)
      → limit < off + 4 * fuel
      → (steps : ℕ) → off + 4 * steps + 4 ≤ limit
      → a ≡ u32 (base + (off + 4 * steps))
      → test (u32 (base + (off + 4 * steps))) (big_word host (p + (off + 4 * steps))) ≡ true
      → Memᴰ a (word_sites fuel test host base p limit off)
  unfolding word_sites
  word_sites-complete zero off a enough steps fits named ok = ground arith
  word_sites-complete (suc fuel) off a enough zero fits named ok =
      let z : off + 4 * 0 ≡ off = omega arith in
      at_turn (u32 (base + off)) a (word_sites fuel test host base p limit (u32 (off + 4)))
        (leb (u32 (off + 4)) limit) (test (u32 (base + off)) (big_word host (p + off)))
        (ground arith) (rw z at ok) (rw z at named)
  word_sites-complete (suc fuel) off a enough (suc steps) fits named ok =
      let e : off + 4 * suc steps ≡ off + 4 + 4 * steps = omega arith in
      let next : u32 (off + 4) ≡ off + 4 = omega arith in
      into_turn (u32 (base + off)) a (word_sites fuel test host base p limit (u32 (off + 4)))
        (leb (u32 (off + 4)) limit) (test (u32 (base + off)) (big_word host (p + off)))
        (ground arith)
        (rw next (
          word_sites-complete fuel (off + 4) a (omega arith) steps (omega arith) (rw e at named)
            (rw e at ok)))

-- A site of a section: a word at a multiple of four from its start, inside the part of the section
-- that the image's buffer holds, which passes the test.
pub record IsSite (test : Test) (code_only : Bool) (im : XexImage) (s : XexSection) (a : ℕ)
    : Type 0 where
  pub source : ℕ
  pub index : ℕ
  pub right_kind : (code_only && not s.is_code) ≡ false
  pub present : s.source ≡ some source
  pub backed : 4 * index + 4 ≤ backed_size im s
  pub in_buffer : (im.buffer ≤ source) × (source + 4 * index + 4 ≤ im.buffer + im.size)
  pub named : a ≡ u32 (s.base + 4 * index)
  pub passes : test (u32 (s.base + 4 * index)) (big_word im.host (source + 4 * index)) ≡ true

abbrev pub IsShort : XexSection → Type 0
IsShort s = s.size + 4 < 2 ^ 32

from_kind : (a : ℕ) (b : Bool) (l : List ℕ) → Memᴰ a (if b then [] else l) → (b ≡ false) × Memᴰ a l
from_kind a true l m = elim m [ ]
from_kind a false l m = (refl, m)

into_if : (a : ℕ) (b : Bool) (l : List ℕ) → b ≡ false → Memᴰ a l → Memᴰ a (if b then [] else l)
into_if a true l e m = ground arith
into_if a false l e m = m

module _ (test : Test) (code_only : Bool) (im : XexImage) (a : ℕ) where
  section-finds :
      (s : XexSection) (o : Option ℕ)
      → s.source ≡ o
      → IsShort s
      → Memᴰ a (section_sites test code_only im s o)
      → IsSite test code_only im s a
  unfolding section_sites
  section-finds s none e short m = elim m [ ]
  section-finds s (some p) e short m =
      let limit : ℕ = backed_size im s in
      let le : limit ≤ s.size = backed_size-le im s in
      let (kind, m') =
        from_kind a (code_only && not s.is_code)
          (word_sites (limit / 4 + 1) test im.host s.base p limit 0) m in
      let w =
        word_sites-finds test im.host s.base p limit (omega (arith, le, short)) (limit / 4 + 1) 0 a
          (omega arith) m' in
      let z : 0 + 4 * w.steps ≡ 4 * w.steps = omega arith in
      let last = 4 * w.steps + 3 in
      let inside =
        backed_from-inside im s.size p (4 * w.steps + 3)
          (omega (arith, w.fits, backed_size-some im s p e)) in
      record {
        source = p;
        index = w.steps;
        right_kind = kind;
        present = e;
        backed = omega (arith, w.fits);
        in_buffer = (inside.0, omega (arith, inside.1));
        named = rw z at w.named;
        passes = rw z at w.passes;
      }

  into_kind :
      (s : XexSection) (p : ℕ)
      → (code_only && not s.is_code) ≡ false
      → Memᴰ a (word_sites (backed_size im s / 4 + 1) test im.host s.base p (backed_size im s) 0)
      → Memᴰ a (section_sites test code_only im s (some p))
  unfolding section_sites
  into_kind s p e m =
      into_if a (code_only && not s.is_code)
        (word_sites (backed_size im s / 4 + 1) test im.host s.base p (backed_size im s) 0) e m

  section-complete :
      (s : XexSection)
      → IsShort s
      → IsSite test code_only im s a
      → Memᴰ a (section_sites test code_only im s s.source)
  section-complete s short i =
      let limit : ℕ = backed_size im s in
      let le : limit ≤ s.size = backed_size-le im s in
      let z : 4 * i.index ≡ 0 + 4 * i.index = omega arith in
      subst⁻¹ (λ o. Memᴰ a (section_sites test code_only im s o)) i.present
        (into_kind s i.source i.right_kind (
          word_sites-complete test im.host s.base i.source limit (omega (arith, le, short))
            (limit / 4 + 1) 0 a (omega arith) i.index (omega (arith, i.backed)) (rw z at i.named)
            (rw z at i.passes)))

  sites-find :
      (sections : List XexSection)
      → All IsShort sections
      → Memᴰ a (sites test code_only im sections)
      → (s : XexSection) × Memᴰ s sections × IsSite test code_only im s a
  unfolding sites
  sites-find [] short h = elim h [ ]
  sites-find (s ∷ sections) short h =
      elim (Memᴰ.append_cases (section_sites test code_only im s s.source) h) [
        | inl m ↦ (s, Memᴰ.head refl, section-finds s s.source refl short.0 m)
        | inr m ↦ let (s', at, i) = sites-find sections short.1 m in (s', Memᴰ.tail at, i)
      ]

  sites-complete :
      (sections : List XexSection)
      → All IsShort sections
      → ((s : XexSection) × Memᴰ s sections × IsSite test code_only im s a)
      → Memᴰ a (sites test code_only im sections)
  unfolding sites
  sites-complete [] short (s, at, i) = elim at [ ]
  sites-complete (s' ∷ sections) short (s, Memᴰ.head e, i) =
      Memᴰ.append_left (sites test code_only im sections)
        (section-complete s' short.0 (subst (λ x. IsSite test code_only im x a) e i))
  sites-complete (s' ∷ sections) short (s, Memᴰ.tail at, i) =
      Memᴰ.append_right (section_sites test code_only im s' s'.source)
        (sites-complete sections short.1 (s, at, i))

-- A scan of the image lists an address exactly when one of its sections has a site there, no word
-- of which lies outside the image's buffer.
pub sites_iff :
    (test : Test) (code_only : Bool) (im : XexImage) (sections : List XexSection) (a : ℕ)
    → All IsShort sections
    → Memᴰ a (sites test code_only im sections)
      ↔ ((s : XexSection) × Memᴰ s sections × IsSite test code_only im s a)
sites_iff test code_only im sections a short = (
  sites-find test code_only im a sections short,
  sites-complete test code_only im a sections short,
)
