-- ===== src/Strings/Ansi.antt =====
-- The ANSI_STRING that RtlInitAnsiString sets up.
use wosrecomp.Base.{
  ℕ, ◌+◌, ◌%◌, ◌^◌, ◌≤◌, ◌<◌, ◌≡◌, ◌≢◌, ◌⊎◌, inl, inr, refl, ◌∙◌, ltb, ◌==◌, if◌then◌else◌,
  Bool-cases, List, [], ◌∷◌, arith, u32,
}
use mathlib.Core.Path.{subst⁻¹}
use native.Mathlib.Nat.{mod-eq_of_lt}
use wosrecomp.Guest.{Mem, load_u16, store_u16, load_u32, store_u32}
use wosrecomp.Guest.Word.{bswap16, bswap32}
use wosrecomp.Guest.Laws.{SameOutside}
use wosrecomp.Guest.Layout.{
  Field, write_fields, InOrder, write_fields_outside, write_fields_read, read_half, read_word,
}
use wosrecomp.Strings.{rtl_init_ansi_string}

-- The string at `dest` has a length, room and a text, and nothing else has changed.
pub record IsAnsi (m m' : Mem) (dest length maximum_length buffer : ℕ) : Type 0 where
  pub holds_length : load_u16 m' dest ≡ length
  pub holds_maximum : load_u16 m' (dest + 2) ≡ maximum_length
  pub holds_buffer : load_u32 m' (dest + 4) ≡ buffer
  pub outside : SameOutside dest 8 m m'

fields : ℕ → ℕ → ℕ → ℕ → List Field
fields dest length maximum_length buffer =
    record { width = 2; address = u32 (dest + 0); raw = bswap16 length }
    ∷ record { width = 2; address = u32 (dest + 2); raw = bswap16 maximum_length }
    ∷ record { width = 4; address = u32 (dest + 4); raw = bswap32 buffer }
    ∷ []

abbrev set : Mem → ℕ → ℕ → ℕ → ℕ → Mem
set m dest l k b = store_u32 (store_u16 (store_u16 m (dest + 0) l) (dest + 2) k) (dest + 4) b

module _ (m : Mem) (dest l k b : ℕ) (below : dest + 8 ≤ 2 ^ 32) where
  set-fields : set m dest l k b ≡ write_fields m (fields dest l k b)
  unfolding fields write_fields store_u16 store_u32
  set-fields = refl

  fields-InOrder : InOrder dest (dest + 8) (fields dest l k b)
  unfolding fields
  fields-InOrder = ground arith

  set-IsAnsi : l < 2 ^ 16 → k < 2 ^ 16 → b < 2 ^ 32 → IsAnsi m (set m dest l k b) dest l k b
  unfolding fields
  set-IsAnsi sl sk sb =
      let m' = write_fields m (fields dest l k b) in
      let all = write_fields_read m dest (dest + 8) (fields dest l k b) fields-InOrder in
      subst⁻¹ (λ r. IsAnsi m r dest l k b) set-fields
        (record {
          holds_length = read_half m' dest _ l (omega arith) all.0 ∙ mod-eq_of_lt sl;
          holds_maximum = read_half m' (dest + 2) _ k (omega arith) all.1.0 ∙ mod-eq_of_lt sk;
          holds_buffer = read_word m' (dest + 4) _ b (omega arith) all.1.1.0 ∙ mod-eq_of_lt sb;
          outside =
              λ a h. write_fields_outside m dest (dest + 8) (fields dest l k b) a fields-InOrder h;
        })

-- The length that an ANSI_STRING can hold, its NUL besides.
abbrev pub shown_length : ℕ → ℕ
shown_length len = if ltb 0xFFFE len then 0xFFFE else len

-- RtlInitAnsiString at an address other than null whose 8 bytes lie in the 32-bit range: for a text
-- it holds the text's address, its length, cut to 0xFFFE, and one more for the NUL, which never
-- wraps; for a null pointer three zeros. Nothing outside the 8 bytes changes.
pub rtl_init_ansi_string-IsAnsi :
    (strlen : Mem → ℕ → ℕ) (m : Mem) (dest src : ℕ)
    → dest ≢ 0
    → dest + 8 ≤ 2 ^ 32
    → src < 2 ^ 32
    → let m' = rtl_init_ansi_string strlen m dest src in
      let length = shown_length (strlen m src) in
      ((src ≡ 0) × IsAnsi m m' dest 0 0 0) ⊎ (src ≢ 0) × IsAnsi m m' dest length (length + 1) src
unfolding rtl_init_ansi_string
rtl_init_ansi_string-IsAnsi strlen m dest src set_dest below small =
    let m' = rtl_init_ansi_string strlen m dest src in
    let l = shown_length (strlen m src) in
    let short : l < 0xFFFF = ground arith in
    elim (Bool-cases (src == 0)) [
      | inl null ↦
          let e : m' ≡ set m dest 0 0 0 = grind arith in
          inl (
            grind arith,
            subst⁻¹ (λ r. IsAnsi m r dest 0 0 0) e
                (set-IsAnsi m dest 0 0 0 below (omega arith) (omega arith) (omega arith)),
          )
      | inr text ↦
          let cut : (l % 2 ^ 16 ≡ l) × ((l + 1) % 2 ^ 16 ≡ l + 1) = (omega arith, omega arith) in
          let written : m' ≡ set m dest (l % 2 ^ 16) ((l % 2 ^ 16 + 1) % 2 ^ 16) src =
            grind arith in
          let e : m' ≡ set m dest l (l + 1) src = written ∙ rw (cut.0, cut.1) refl in
          inr (
            grind arith,
            subst⁻¹ (λ r. IsAnsi m r dest l (l + 1) src) e
                (set-IsAnsi m dest l (l + 1) src below (omega arith) (omega arith) small),
          )
    ]
