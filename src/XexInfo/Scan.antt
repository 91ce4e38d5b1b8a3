-- ===== src/XexInfo/Scan.antt =====
-- The ends and starts that the scans find.
use wosrecomp.Base.{
  ℕ, zero, suc, ◌+◌, ◌-◌, ◌*◌, ◌^◌, ◌≤◌, ◌<◌, ◌≡◌, ◌≢◌, refl, ap, sym, ◌∙◌, ◌⊎◌, inl, inr, false,
  if◌then◌else◌, ltb, ltb→lt, min, max, Bool-cases, Option, none, some, arith, u32,
}
use wosrecomp.XexInfo.{
  Image, Insn, unmapped, ends, goes_on, insn_at, max_scan, scan_end, find_function_end,
  skip_padding, start_behind, scan_start, or_floor, infer_function_start,
}

Insn-cases : (i : Insn) → (i ≡ unmapped) ⊎ ((i ≡ ends) ⊎ (i ≡ goes_on))
Insn-cases unmapped = inl refl
Insn-cases ends = inr (inl refl)
Insn-cases goes_on = inr (inr refl)

-- The first terminator from `a` on, among the instructions `a`, `a + 4`, and so on, stands `k`
-- instructions further.
abbrev pub FirstEnd : Image → ℕ → ℕ → Type 0
FirstEnd im a k =
    (insn_at im (a + 4 * k) ≡ ends) × ((j : ℕ) → j < k → insn_at im (a + 4 * j) ≡ goes_on)

shift : (a k : ℕ) → a + 4 * suc k ≡ a + 4 + 4 * k
shift a k = omega arith

first : (a : ℕ) → a + 4 * 0 ≡ a
first a = omega arith

FirstEnd-tail : (im : Image) (a k : ℕ) → FirstEnd im a (suc k) → FirstEnd im (a + 4) k
FirstEnd-tail im a k f = (
  ap (insn_at im) (sym (shift a k)) ∙ f.0,
  λ j l. ap (insn_at im) (sym (shift a j)) ∙ f.1 (suc j) (omega arith),
)

FirstEnd-head :
    (im : Image) (a k : ℕ) → insn_at im a ≡ goes_on → FirstEnd im (a + 4) k → FirstEnd im a (suc k)
FirstEnd-head im a k here f = (ap (insn_at im) (shift a k) ∙ f.0, before)
  where
    before : (j : ℕ) → j < suc k → insn_at im (a + 4 * j) ≡ goes_on
    before zero l = ap (insn_at im) (first a) ∙ here
    before (suc j) l = ap (insn_at im) (shift a j) ∙ f.1 j (omega arith)

scan_end-stop :
    (fuel : ℕ) (im : Image) (limit a : ℕ)
    → (a < limit)
    → insn_at im a ≡ ends
    → scan_end (suc fuel) im limit a ≡ u32 (a + 4)
unfolding scan_end
scan_end-stop fuel im limit a below e = ground (arith, e)

scan_end-empty : (im : Image) (limit a : ℕ) → scan_end zero im limit a ≡ 0
unfolding scan_end
scan_end-empty im limit a = refl

scan_end-over :
    (fuel : ℕ) (im : Image) (limit a : ℕ) → ltb a limit ≡ false → scan_end (suc fuel) im limit a ≡ 0
unfolding scan_end
scan_end-over fuel im limit a e = ground (arith, e)

scan_end-unmapped :
    (fuel : ℕ) (im : Image) (limit a : ℕ)
    → insn_at im a ≡ unmapped
    → scan_end (suc fuel) im limit a ≡ 0
unfolding scan_end
scan_end-unmapped fuel im limit a e = ground (arith, e)

scan_end-go :
    (fuel : ℕ) (im : Image) (limit a : ℕ)
    → (a < limit)
    → insn_at im a ≡ goes_on
    → scan_end (suc fuel) im limit a ≡ scan_end fuel im limit (u32 (a + 4))
unfolding scan_end
scan_end-go fuel im limit a below e = ground (arith, e)

-- If the first terminator lies below the limit, the scan ends behind it.
scan_end-finds :
    (fuel k : ℕ) (im : Image) (limit a : ℕ)
    → limit + 4 ≤ 2 ^ 32
    → a + 4 * k < limit
    → k < fuel
    → FirstEnd im a k
    → scan_end fuel im limit a ≡ a + 4 * k + 4
scan_end-finds zero k im limit a small below enough f = absurd (omega arith)
scan_end-finds (suc fuel) zero im limit a small below enough f =
    scan_end-stop fuel im limit a (omega arith) (ap (insn_at im) (sym (first a)) ∙ f.0)
    ∙ omega arith
scan_end-finds (suc fuel) (suc k) im limit a small below enough f =
    let here : insn_at im a ≡ goes_on = ap (insn_at im) (sym (first a)) ∙ f.1 0 (omega arith) in
    let next : u32 (a + 4) ≡ a + 4 = omega arith in
    scan_end-go fuel im limit a (omega arith) here
    ∙ ap (scan_end fuel im limit) next
    ∙ scan_end-finds fuel k im limit (a + 4) small (omega arith) (omega arith)
        (FirstEnd-tail im a k f)
    ∙ omega arith

-- The other way round: an end is behind the first terminator.
scan_end-first :
    (fuel : ℕ) (im : Image) (limit a : ℕ)
    → limit + 4 ≤ 2 ^ 32
    → scan_end fuel im limit a ≢ 0
    → (k : ℕ) × FirstEnd im a k × (a + 4 * k < limit) × (scan_end fuel im limit a ≡ a + 4 * k + 4)
scan_end-first zero im limit a small found = absurd (found (scan_end-empty im limit a))
scan_end-first (suc fuel) im limit a small found = elim (Bool-cases (ltb a limit)) [
  | inr b ↦ absurd (found (scan_end-over fuel im limit a b))
  | inl b ↦
      let below : a < limit = ltb→lt a limit b in
      let next : u32 (a + 4) ≡ a + 4 = omega arith in
      elim (Insn-cases (insn_at im a)) [
        | inl e ↦ absurd (found (scan_end-unmapped fuel im limit a e))
        | inr (inl e) ↦ (
          0,
          (ap (insn_at im) (first a) ∙ e, λ j l. absurd (omega arith)),
          omega arith,
          scan_end-stop fuel im limit a below e ∙ omega arith,
        )
        | inr (inr e) ↦
            let step = scan_end-go fuel im limit a below e ∙ ap (scan_end fuel im limit) next in
            let (k, f, fits, there) =
              scan_end-first fuel im limit (a + 4) small (λ z. found (step ∙ z)) in
            (suc k, FirstEnd-head im a k e f, omega arith, step ∙ there ∙ omega arith)
      ]
]

-- An end that is found stands behind the first terminator from the given address on, which is
-- below the ceiling and within 32 KiB, for an address that far from the end of the 32-bit range.
pub find_function_end-first :
    (im : Image) (from ceiling : ℕ)
    → from + 0x8004 ≤ 2 ^ 32
    → find_function_end im from ceiling ≢ 0
    → (k : ℕ) × FirstEnd im from k
      × (from + 4 * k < ceiling)
      × (4 * k < max_scan)
      × (find_function_end im from ceiling ≡ from + 4 * k + 4)
unfolding find_function_end
find_function_end-first im from ceiling room found =
    let (k, f, below, e) =
      scan_end-first 0x2000 im (min ceiling (u32 (from + max_scan))) from (omega arith) found in
    (k, f, omega arith, omega arith, e)

-- The first terminator from an address on, if it stands below the ceiling and within 32 KiB,
-- gives the end, for an address that far from the end of the 32-bit range: the scan has fuel for
-- all of them.
pub find_function_end-finds :
    (im : Image) (from ceiling k : ℕ)
    → from + 0x8004 ≤ 2 ^ 32
    → FirstEnd im from k
    → from + 4 * k < ceiling
    → 4 * k < max_scan
    → find_function_end im from ceiling ≡ from + 4 * k + 4
unfolding find_function_end
find_function_end-finds im from ceiling k room f below near =
    scan_end-finds 0x2000 k im (min ceiling (u32 (from + max_scan))) from (omega arith)
      (omega arith) (omega arith) f

skip_padding-bounds :
    (fuel : ℕ) (im : Image) (site start : ℕ)
    → site + 4 ≤ 2 ^ 32
    → start ≤ skip_padding fuel im site start
unfolding skip_padding
skip_padding-bounds zero im site start room = omega arith
skip_padding-bounds (suc fuel) im site start room =
    ground (arith, skip_padding-bounds fuel im site (u32 (start + 4)))

start_behind-bounds :
    (im : Image) (site a : ℕ)
    → site + 4 ≤ 2 ^ 32
    → a < site
    → start_behind im site a ≢ 0
    → (a < start_behind im site a) × (start_behind im site a < site)
unfolding start_behind
start_behind-bounds im site a room below found =
    ground (arith, skip_padding-bounds 0x2001 im site (u32 (a + 4)) room)

scan_start-bounds :
    (fuel : ℕ) (im : Image) (site limit a start : ℕ)
    → site + 4 ≤ 2 ^ 32
    → scan_start fuel im site limit a ≡ some start
    → start ≢ 0
    → (limit < start) × (start < site)
unfolding scan_start
scan_start-bounds zero im site limit a start room e found = ground (arith, e)
scan_start-bounds (suc fuel) im site limit a start room e found = elim (Insn-cases (insn_at im a)) [
  | inl c ↦ ground (arith, c, e, found)
  | inr (inl c) ↦ ground (arith, c, e, found, start_behind-bounds im site a room)
  | inr (inr c) ↦
      ground (arith, c, e, scan_start-bounds fuel im site limit (u32 (a + 2 ^ 32 - 4)) start room)
]

or_floor-bounds :
    (o : Option ℕ) (site floor : ℕ)
    → ((start : ℕ) → o ≡ some start → start ≢ 0 → (floor ≤ start) × (start < site))
    → or_floor o site floor ≢ 0
    → (floor ≤ or_floor o site floor) × (or_floor o site floor < site)
unfolding or_floor
or_floor-bounds none site floor h found = ground arith
or_floor-bounds (some start) site floor h found = h start refl found

-- A start that is inferred lies before the site, and not before the end of the last record.
pub infer_function_start-bounds :
    (im : Image) (site floor : ℕ)
    → site + 4 ≤ 2 ^ 32
    → infer_function_start im site floor ≢ 0
    → (floor ≤ infer_function_start im site floor) × (infer_function_start im site floor < site)
unfolding infer_function_start
infer_function_start-bounds im site floor room found =
    or_floor-bounds
      (scan_start 0x2001 im site (max floor (if ltb max_scan site then site - max_scan else 0))
        (u32 (site + 2 ^ 32 - 4)))
      site floor
      (λ start e nonzero.
        let b =
          scan_start-bounds 0x2001 im site
            (max floor (if ltb max_scan site then site - max_scan else 0)) (u32 (site + 2 ^ 32 - 4))
            start room e nonzero in
        (omega (arith, b), b.1))
      found
