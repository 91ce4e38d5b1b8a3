-- ===== src/Loader/Sections.antt =====
-- What guest memory holds once the sections are mapped.
use wosrecomp.Base.{
  ℕ, ◌+◌, ◌-◌, ◌≤◌, ◌<◌, ◌≡◌, ◌⊎◌, inl, inr, refl, ap, ◌∙◌, true, if◌then◌else◌, ltb, Bool-cases,
  Option-cases, some, List, [], ◌∷◌, All, arith,
}
use wosrecomp.Guest.{Mem}
use wosrecomp.Heap.{Commit}
use wosrecomp.XexImage.{XexSection, XexImage, backed_from, backed_size}
use wosrecomp.XexImage.Backed.{backed_from-inside, backed_size-some, backed_size-le}
use wosrecomp.Loader.{
  Layout, page_align, copy_from, copy_of, copy_bytes, source_or_0, map_section, map_sections,
}

copy_from-backed : (im : XexImage) (size p : ℕ) → (copy_from im size p).0 ≡ backed_from im size p
unfolding copy_from backed_from
copy_from-backed im size p = ground arith

-- The loader copies as much of a section as the analysis tool scans.
pub copy_of-backed : (im : XexImage) (s : XexSection) → (copy_of im s).0 ≡ backed_size im s
unfolding copy_of backed_size
copy_of-backed im s = elim (Option-cases s.source) [
  | inl e ↦ ground arith
  | inr (p, e) ↦ ground (arith, copy_from-backed im s.size p)
]

-- Two sections that share no address, and an address that no byte is copied to: that is so of all
-- addresses for a section past the reservation.
abbrev pub Apart : XexSection → XexSection → Type 0
Apart s t = (s.base + s.size ≤ t.base) ⊎ (t.base + t.size ≤ s.base)

abbrev pub AllApart : List XexSection → Type 0
AllApart [] = Unit
AllApart (s ∷ sections) = All (Apart s) sections × AllApart sections

abbrev pub Clear : Layout → XexImage → ℕ → XexSection → Type 0
Clear y im a s = (y.memory_size < s.base + s.size) ⊎ (a < s.base) ⊎ (s.base + backed_size im s ≤ a)

Clear-Apart :
    (y : Layout) (im : XexImage) (s : XexSection) (i : ℕ)
    → i < s.size
    → (sections : List XexSection) → All (Apart s) sections
    → All (Clear y im (s.base + i)) sections
Clear-Apart y im s i h [] apart = tt
Clear-Apart y im s i h (t ∷ sections) apart =
    (ground (arith, apart.0, backed_size-le im t), Clear-Apart y im s i h sections apart.1)

-- A section may lie past the reservation; of any other the bytes that lie in the image's
-- buffer are at its place in guest memory.
abbrev pub Maps : Layout → XexImage → Mem → XexSection → Type 0
Maps y im m s =
    (y.memory_size < s.base + s.size)
    ⊎ ((p i : ℕ)
        → s.source ≡ some p
        → i < backed_size im s
        → (im.buffer ≤ p) × (p + i < im.buffer + im.size) × (m (s.base + i) ≡ im.host (p + i)))

module _ (commit : Commit) (grants : (a n : ℕ) → commit a n ≡ true) (y : Layout)
    (im : XexImage) where
  after : Mem → XexSection → Mem
  after m s =
      if ltb y.memory_size (s.base + s.size)
      then m
      else copy_bytes m s.base im.host (source_or_0 s) (backed_size im s)

  bad_after : XexSection → ℕ → ℕ
  bad_after s bad =
      if ltb y.memory_size (s.base + s.size)
      then bad + 1
      else if (copy_of im s).1
      then bad + 1
      else bad

  map_section-after :
      (s : XexSection) (m : Mem) (bad : ℕ)
      → map_section commit y im s (m, bad) ≡ some (after m s, bad_after s bad)
  unfolding map_section after bad_after
  map_section-after s m bad =
      let range = page_align s.base s.size in
      rw (copy_of-backed im s) (ground (arith, grants range.0 range.1))

  after-Clear : (s : XexSection) (m : Mem) (a : ℕ) → Clear y im a s → after m s a ≡ m a
  unfolding after copy_bytes
  after-Clear s m a c = ground arith

  after-copied :
      (s : XexSection) (m : Mem) (p i : ℕ)
      → s.base + s.size ≤ y.memory_size
      → s.source ≡ some p
      → i < backed_size im s
      → after m s (s.base + i) ≡ im.host (p + i)
  unfolding after copy_bytes source_or_0
  after-copied s m p i fits e below =
      let place : p + (s.base + i - s.base) ≡ p + i = omega arith in grind (arith, ap im.host place)

  head-Maps :
      (s : XexSection) (sections : List XexSection) (m m' : Mem)
      → All (Apart s) sections
      → ((a : ℕ) → All (Clear y im a) sections → m' a ≡ after m s a)
      → Maps y im m' s
  head-Maps s sections m m' apart keeps = elim (Bool-cases (ltb y.memory_size (s.base + s.size))) [
    | inl big ↦ inl (ground arith)
    | inr fits ↦ inr (λ p i e below.
        let (low, high, small) =
          backed_from-inside im s.size p i (omega (arith, below, backed_size-some im s p e)) in
        (
          low,
          high,
          keeps (s.base + i) (Clear-Apart y im s i small sections apart)
              ∙ after-copied s m p i (ground arith) e below,
        ))
  ]

  -- Mapping sections that share no address, on a host that commits every range: it succeeds. Each
  -- section that ends within the reservation is there as far as the image's buffer holds it, with
  -- nothing read outside the buffer. No other byte changes; a section that ends past the
  -- reservation writes none.
  pub map_sections-Maps :
      (sections : List XexSection) (m : Mem) (bad : ℕ)
      → AllApart sections
      → (r : Mem × ℕ) × (map_sections commit y im sections (m, bad) ≡ some r)
        × All (Maps y im r.0) sections
        × ((a : ℕ) → All (Clear y im a) sections → r.0 a ≡ m a)
  unfolding map_sections
  map_sections-Maps [] m bad apart = ((m, bad), refl, tt, λ a c. refl)
  map_sections-Maps (s ∷ sections) m bad apart =
      let (r, e, maps, keeps) = map_sections-Maps sections (after m s) (bad_after s bad) apart.1 in
      (
        r,
        ground (arith, map_section-after s m bad),
        (head-Maps s sections m r.0 apart.0 keeps, maps),
        λ a c. keeps a c.1 ∙ after-Clear s m a c.0,
      )
