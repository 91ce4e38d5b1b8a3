-- ===== src/Present/Pixels.antt =====
-- What a frame shows of the guest's front buffer.
use wosrecomp.Base.{
  ℕ, zero, suc, ◌+◌, ◌-◌, ◌*◌, ◌%◌, ◌^◌, ◌≤◌, ◌<◌, ◌≡◌, ◌⊎◌, inl, inr, refl, ◌∙◌, sym, min, arith,
  Bool-cases, ltb, true, false, if◌then◌else◌, ◌&&◌, ◌/◌,
}
use wosrecomp.Guest.{Mem, store_byte}
use wosrecomp.Present.{Presenter, copy_row, copy_rows, source_pitch, copy_guest_front_buffer}

module _ (guest : Mem) (src row : ℕ) where
  -- Nothing outside the pixels of the row changes.
  copy_row_outside :
      (n x : ℕ) (dst : Mem) (a : ℕ)
      → (x + n) * 4 < 2 ^ 32
      → (a < row + x * 4) ⊎ (row + (x + n) * 4 ≤ a)
      → copy_row n guest src row x dst a ≡ dst a
  unfolding copy_row store_byte
  copy_row_outside zero x dst a small h = refl
  copy_row_outside (suc n) x dst a small h =
      copy_row_outside n (x + 1) _ a (omega (arith, small)) (grind arith) ∙ ground arith

  -- The four stores of one pixel put its bytes in reverse.
  copy_row_one :
      (x : ℕ) (dst : Mem) (c : ℕ)
      → (x + 1) * 4 < 2 ^ 32
      → c < 4
      → copy_row 1 guest src row x dst (row + x * 4 + c) ≡ guest (src + x * 4 + (3 - c)) % 256
  unfolding copy_row store_byte
  copy_row_one x dst zero small four = ground arith
  copy_row_one x dst (suc zero) small four = ground arith
  copy_row_one x dst (suc (suc zero)) small four = ground arith
  copy_row_one x dst (suc (suc (suc zero))) small four = ground arith
  copy_row_one x dst (suc (suc (suc (suc c)))) small four = ground arith

  -- Each pixel has its bytes in reverse.
  copy_row_inside :
      (n x : ℕ) (dst : Mem) (k c : ℕ)
      → (x + n) * 4 < 2 ^ 32
      → k < n
      → c < 4
      → copy_row n guest src row x dst (row + (x + k) * 4 + c)
        ≡ guest (src + (x + k) * 4 + (3 - c)) % 256
  unfolding copy_row
  copy_row_inside zero x dst k c small l four = ground arith
  copy_row_inside (suc n) x dst zero c small l four =
      let e : x + 0 ≡ x = omega arith in
      rw e (
        copy_row_outside n (x + 1) _ _ (omega (arith, small)) (inl (omega (arith, four)))
        ∙ copy_row_one x dst c (omega (arith, small)) four)
  copy_row_inside (suc n) x dst (suc k) c small l four =
      let e : (x + suc k) * 4 ≡ (x + 1 + k) * 4 = omega arith in
      rw e (copy_row_inside n (x + 1) _ k c (omega (arith, small)) (omega (arith, l)) four)

-- A row ends before every later one.
row_before : (w q y : ℕ) → q < y → q * w + w ≤ y * w
row_before w zero (suc y) l = omega arith
row_before w (suc q) (suc y) l = let r = row_before w q y (omega (arith, l)) in omega (arith, r)
row_before w zero zero l = elim l [ ]
row_before w (suc q) zero l = elim l [ ]

row_place :
    (w width q y o : ℕ)
    → width * 4 ≤ w
    → o < w
    → (q < y) ⊎ (y < q) ⊎ (width * 4 ≤ o)
    → (q * w + o < y * w + 0 * 4) ⊎ (y * w + (0 + width) * 4 ≤ q * w + o)
row_place w width q y o fits l h = elim (Bool-cases (ltb q y)) [
  | inl b ↦
      let before : q < y = grind arith in
      let r = row_before w q y before in inl (omega (arith, r, l))
  | inr b ↦ elim (Bool-cases (ltb y q)) [
    | inl c ↦
        let after : y < q = grind arith in
        let r = row_before w y q after in inr (omega (arith, r, fits))
    | inr c ↦ let e : q ≡ y = grind arith in rw e (grind arith)
  ]
]

module _ (guest : Mem) (src src_pitch dst_pitch width : ℕ) where
  -- The places that the pixels of `n` rows from the `y`-th on do not take.
  copy_rows_outside :
      (n y : ℕ) (dst : Mem) (q o : ℕ)
      → width * 4 < 2 ^ 32
      → width * 4 ≤ dst_pitch
      → o < dst_pitch
      → (q < y) ⊎ (y + n ≤ q) ⊎ (width * 4 ≤ o)
      → copy_rows n guest src src_pitch dst_pitch width y dst (q * dst_pitch + o)
        ≡ dst (q * dst_pitch + o)
  unfolding copy_rows
  copy_rows_outside zero y dst q o small fits l h = refl
  copy_rows_outside (suc n) y dst q o small fits l h =
      copy_rows_outside n (y + 1) _ q o small fits l (grind arith)
      ∙ copy_row_outside guest _ _ width 0 dst _ (omega (arith, small))
          (row_place dst_pitch width q y o fits l (grind arith))

  copy_rows_inside :
      (n y : ℕ) (dst : Mem) (j x c : ℕ)
      → width * 4 < 2 ^ 32
      → width * 4 ≤ dst_pitch
      → j < n
      → x < width
      → c < 4
      → copy_rows n guest src src_pitch dst_pitch width y dst ((y + j) * dst_pitch + (x * 4 + c))
        ≡ guest (src + (y + j) * src_pitch + x * 4 + (3 - c)) % 256
  unfolding copy_rows
  copy_rows_inside zero y dst j x c small fits k l four = ground arith
  copy_rows_inside (suc n) y dst zero x c small fits k l four =
      let e : y + 0 ≡ y = omega arith in
      let s : y * dst_pitch + (x * 4 + c) ≡ y * dst_pitch + (0 + x) * 4 + c = omega arith in
      let t : src + y * src_pitch + (0 + x) * 4 + (3 - c) ≡ src + y * src_pitch + x * 4 + (3 - c) =
        omega arith in
      rw (e, sym t)
        (copy_rows_outside n (y + 1) _ y (x * 4 + c) small fits (omega (arith, l, four, fits))
            (inl (omega arith))
          ∙ rw s (copy_row_inside guest _ _ width 0 dst x c (omega (arith, small)) l four))
  copy_rows_inside (suc n) y dst (suc j) x c small fits k l four =
      let e : y + suc j ≡ y + 1 + j = omega arith in
      rw e (copy_rows_inside n (y + 1) _ j x c small fits (omega (arith, k)) l four)

-- The byte in row `q` at offset `o` of the frame that the guest's front buffer makes of `old`: a
-- pixel that both have is the guest's with its bytes in reverse, all else is as before.
unfoldable pub frame_byte : Presenter → Mem → Mem → ℕ → ℕ → ℕ → ℕ
frame_byte p guest old dst_pitch q o =
    let inside =
      ltb q p.front_height
      && ltb q p.staging_height
      && ltb o (p.front_width * 4)
      && ltb o (p.staging_width * 4) in
    if inside
    then guest (p.front_buffer + q * source_pitch p + o / 4 * 4 + (3 - o % 4)) % 256
    else old (q * dst_pitch + o)

within :
    (q o h h' w w' : ℕ)
    → (ltb q h && ltb q h' && ltb o (w * 4) && ltb o (w' * 4)) ≡ true
    → (q < min h h') × (o / 4 < min w w')
within q o h h' w w' e =
    let (a, b, c, d) : (q < h) × (q < h') × (o < w * 4) × (o < w' * 4) = ground arith in
    (omega (arith, a, b), omega (arith, c, d))

beyond :
    (q o h h' w w' : ℕ)
    → (ltb q h && ltb q h' && ltb o (w * 4) && ltb o (w' * 4)) ≡ false
    → (q < 0) ⊎ (0 + min h h' ≤ q) ⊎ (min w w' * 4 ≤ o)
beyond q o h h' w w' e = ground arith

pub copy_guest_front_buffer-Frame :
    (p : Presenter) (guest dst : Mem) (dst_pitch q o : ℕ)
    → p.staging_width * 4 < 2 ^ 32
    → p.staging_width * 4 ≤ dst_pitch
    → o < dst_pitch
    → copy_guest_front_buffer p guest dst_pitch dst (q * dst_pitch + o)
      ≡ frame_byte p guest dst dst_pitch q o
unfolding copy_guest_front_buffer frame_byte
copy_guest_front_buffer-Frame p guest dst dst_pitch q o small fits l =
    let rows = min p.front_height p.staging_height in
    let width = min p.front_width p.staging_width in
    let least : width ≤ p.staging_width = omega arith in
    let tail =
      copy_rows_outside guest p.front_buffer (source_pitch p) dst_pitch width rows 0 dst q o
        (omega (arith, small, least)) (omega (arith, fits, least)) l in
    elim (Bool-cases (
      ltb q p.front_height
      && ltb q p.staging_height
      && ltb o (p.front_width * 4)
      && ltb o (p.staging_width * 4))) [
        | inl e ↦
            let (row, column) = within q o _ _ _ _ e in
            let d : o / 4 * 4 + o % 4 ≡ o = omega arith in
            let z : 0 + q ≡ q = omega arith in
            rw e (
              rw (z, d) at
                (copy_rows_inside guest p.front_buffer (source_pitch p) dst_pitch width rows 0 dst q
                  (o / 4) (o % 4) (omega (arith, small, least)) (omega (arith, fits, least)) row
                  column (omega arith)))
        | inr e ↦ rw e (tail (beyond q o _ _ _ _ e))
      ]
