-- ===== src/Loader/Align.antt =====
-- The range that `PageAlign` makes of a section's.
use wosrecomp.Base.{
  ℕ, ◌+◌, ◌-◌, ◌*◌, ◌/◌, ◌%◌, ◌^◌, ◌≤◌, ◌<◌, ◌≡◌, refl, arith, u64, and_not64, and_not-align,
}
use wosrecomp.Loader.{align_page_size, page_align}

-- PageAlign, away from the end of the 64-bit range: whole pages that cover the range, and less than
-- a page more at either end.
pub page_align-Covers :
    (start size : ℕ)
    → start + size + align_page_size ≤ 2 ^ 64
    → let (start', size') = page_align start size in
      (start' % align_page_size ≡ 0)
      × (size' % align_page_size ≡ 0)
      × (start' ≤ start)
      × (start < start' + align_page_size)
      × (start + size ≤ start' + size')
      × (start' + size' < start + size + align_page_size)
unfolding page_align
page_align-Covers start size fits =
    let sum : u64 (start + size + align_page_size + 2 ^ 64 - 1)
        ≡ start + size + align_page_size - 1 =
      omega arith in
    let low : and_not64 start (align_page_size - 1) ≡ start / 2 ^ 16 * 2 ^ 16 =
      and_not-align 16 48 64 start refl (omega arith) in
    let high : and_not64 (start + size + align_page_size - 1) (align_page_size - 1)
        ≡ (start + size + align_page_size - 1) / 2 ^ 16 * 2 ^ 16 =
      and_not-align 16 48 64 (start + size + align_page_size - 1) refl (omega arith) in
    rw (sum, high, low)
      (omega arith, omega arith, omega arith, omega arith, omega arith, omega arith)
