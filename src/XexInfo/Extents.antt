-- ===== src/XexInfo/Extents.antt =====
-- The extent of a switch site against the records around it.
use wosrecomp.Base.{ℕ, ◌+◌, ◌^◌, ◌≤◌, ◌<◌, ◌≡◌, ◌≢◌, ◌⊎◌, inl, inr, max, some, List, [], ◌∷◌, arith}
use wosrecomp.XexInfo.{
  Image, PdataFunc, infer_function_start, floor_addr, ceiling_addr, inferred_extent,
}
use wosrecomp.XexInfo.Scan.{infer_function_start-bounds}

-- Records that lie apart, each behind the one before it.
abbrev pub Records : ℕ → List PdataFunc → Type 0
Records lo [] = Unit
Records lo (f ∷ fs) = (lo ≤ f.begin) × (f.begin ≤ f.end) × Records f.end fs

-- No record holds the site.
abbrev pub Gap : List PdataFunc → ℕ → Type 0
Gap [] site = Unit
Gap (f ∷ fs) site = ((f.end ≤ site) ⊎ (site < f.begin)) × Gap fs site

-- An extent shares no address with any record.
abbrev pub Apart : List PdataFunc → ℕ → ℕ → Type 0
Apart [] start end = Unit
Apart (f ∷ fs) start end = ((f.end ≤ start) ⊎ (end ≤ f.begin)) × Apart fs start end

-- Records behind the ceiling.
Apart-above :
    (lo : ℕ) (fs : List PdataFunc) (start end : ℕ) → Records lo fs → end ≤ lo → Apart fs start end
Apart-above lo [] start end r h = tt
Apart-above lo (f ∷ fs) start end r h =
    (inr (omega (arith, r.0)), Apart-above f.end fs start end r.2 (omega (arith, r.0, r.1)))

floor_addr-grows : (fs : List PdataFunc) (site best : ℕ) → best ≤ floor_addr fs site best
unfolding floor_addr
floor_addr-grows [] site best = omega arith
floor_addr-grows (f ∷ fs) site best =
    ground (arith, floor_addr-grows fs site (max best f.end), floor_addr-grows fs site best)

Apart-Gap :
    (lo : ℕ) (fs : List PdataFunc) (site best start end : ℕ)
    → Records lo fs
    → Gap fs site
    → floor_addr fs site best ≤ start
    → end ≤ ceiling_addr fs site
    → Apart fs start end
unfolding floor_addr ceiling_addr
Apart-Gap lo [] site best start end r g low high = tt
Apart-Gap lo (f ∷ fs) site best start end r g low high = elim g.0 [
  | inl before ↦
      let low' : floor_addr fs site (max best f.end) ≤ start = ground (arith, low, before) in
      let high' : end ≤ ceiling_addr fs site = ground (arith, high, before, r.1) in
      (
        inl (omega (arith, low', floor_addr-grows fs site (max best f.end))),
        Apart-Gap f.end fs site (max best f.end) start end r.2 g.1 low' high',
      )
  | inr after ↦
      let high' : end ≤ f.begin = ground (arith, high, after) in
      (inr high', Apart-above f.end fs start end r.2 (omega (arith, high', r.1)))
]

-- With records that are sorted and lie apart, and no record that holds a switch site, the extent
-- inferred for the site starts before it and shares no address with any record.
pub inferred_extent-Apart :
    (im : Image) (pdata : List PdataFunc) (site : ℕ) (targets : List ℕ) (start end : ℕ)
    → Records 0 pdata
    → Gap pdata site
    → site + 4 ≤ 2 ^ 32
    → inferred_extent im pdata site targets ≡ some (start, end)
    → (start < site) × Apart pdata start end
unfolding inferred_extent
inferred_extent-Apart im pdata site targets start end r g room e =
    let floor : ℕ = floor_addr pdata site 0 in
    let bounds = infer_function_start-bounds im site floor room in
    let parts : (infer_function_start im site floor ≢ 0)
        × (start ≡ infer_function_start im site floor)
        × (end ≤ ceiling_addr pdata site) =
      ground (arith, e) in
    let (lower, upper) = bounds parts.0 in
    (
      omega (arith, parts, upper),
      Apart-Gap 0 pdata site 0 start end r g (omega (arith, parts, lower)) parts.2,
    )
