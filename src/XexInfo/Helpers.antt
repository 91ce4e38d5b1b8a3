-- ===== src/XexInfo/Helpers.antt =====
-- The search for the register save and restore helpers, tools/xex_info/main.cpp: `helperPatterns`
-- and `findHelpers`. The names that are only printed are left out; a section's addresses stay
-- below 2 ^ 64, so the sums in `size_t` do not wrap.
use wosrecomp.Base.{
  ℕ, zero, suc, ◌+◌, ◌/◌, Bool, true, false, ◌&&◌, not, if◌then◌else◌, ltb, leb, ◌==◌, Option, none,
  some, List, [], ◌∷◌, ◌++◌, length,
}

-- `is_code` is the section's SectionFlags_Code.
pub record ImageSection : Type 0 where
  pub base : ℕ
  pub size : ℕ
  pub is_code : Bool
  pub data_of : Option (ℕ → ℕ)

pub data ConfigField : Type 0 where
  restgprlr_14_address : ConfigField
  savegprlr_14_address : ConfigField
  restfpr_14_address : ConfigField
  savefpr_14_address : ConfigField
  restvmx_14_address : ConfigField
  savevmx_14_address : ConfigField
  restvmx_64_address : ConfigField
  savevmx_64_address : ConfigField

pub record HelperPattern : Type 0 where
  pub config_field : ConfigField
  pub bytes : List ℕ
  pub next : List ℕ

-- A pattern of its field, its bytes and the bytes that follow.
abbrev pattern_of : ConfigField → List ℕ → List ℕ → HelperPattern
pattern_of f b n = record { config_field = f; bytes = b; next = n }

abbrev pub helper_patterns : List HelperPattern
helper_patterns =
    pattern_of restgprlr_14_address (0xE9 ∷ 0xC1 ∷ 0xFF ∷ 0x68 ∷ [])
      (0xE9 ∷ 0xE1 ∷ 0xFF ∷ 0x70 ∷ [])
    ∷ pattern_of savegprlr_14_address (0xF9 ∷ 0xC1 ∷ 0xFF ∷ 0x68 ∷ [])
        (0xF9 ∷ 0xE1 ∷ 0xFF ∷ 0x70 ∷ [])
    ∷ pattern_of restfpr_14_address (0xC9 ∷ 0xCC ∷ 0xFF ∷ 0x70 ∷ [])
        (0xC9 ∷ 0xEC ∷ 0xFF ∷ 0x78 ∷ [])
    ∷ pattern_of savefpr_14_address (0xD9 ∷ 0xCC ∷ 0xFF ∷ 0x70 ∷ [])
        (0xD9 ∷ 0xEC ∷ 0xFF ∷ 0x78 ∷ [])
    ∷ pattern_of restvmx_14_address (0x39 ∷ 0x60 ∷ 0xFE ∷ 0xE0 ∷ 0x7D ∷ 0xCB ∷ 0x60 ∷ 0xCE ∷ []) []
    ∷ pattern_of savevmx_14_address (0x39 ∷ 0x60 ∷ 0xFE ∷ 0xE0 ∷ 0x7D ∷ 0xCB ∷ 0x61 ∷ 0xCE ∷ []) []
    ∷ pattern_of restvmx_64_address (0x39 ∷ 0x60 ∷ 0xFC ∷ 0x00 ∷ 0x10 ∷ 0x0B ∷ 0x60 ∷ 0xCB ∷ []) []
    ∷ pattern_of savevmx_64_address (0x39 ∷ 0x60 ∷ 0xFC ∷ 0x00 ∷ 0x10 ∷ 0x0B ∷ 0x61 ∷ 0xCB ∷ []) []
    ∷ []

abbrev pub total_bytes : HelperPattern → ℕ
total_bytes pat = length pat.bytes + length pat.next

-- `memcmp(data + p, bytes) == 0`.
unfoldable pub same_bytes : (ℕ → ℕ) → ℕ → List ℕ → Bool
same_bytes data_of p [] = true
same_bytes data_of p (b ∷ bs) = data_of p == b && same_bytes data_of (p + 1) bs

unfoldable pub no_follow_on : List ℕ → Bool
no_follow_on [] = true
no_follow_on (b ∷ bs) = false

-- The two tests in the loop's body.
unfoldable pub matches : HelperPattern → (ℕ → ℕ) → ℕ → Bool
matches pat data_of off =
    if not (same_bytes data_of off pat.bytes)
    then false
    else if not (no_follow_on pat.next)
        && not (same_bytes data_of (off + length pat.bytes) pat.next)
    then false
    else true

-- The loop over a section, on fuel, from the offset `off` on.
unfoldable pub scan_section : ℕ → HelperPattern → ImageSection → (ℕ → ℕ) → ℕ → List ℕ
scan_section zero pat s data_of off = []
scan_section (suc fuel) pat s data_of off =
    let rest = scan_section fuel pat s data_of (off + 4) in
    if leb (off + total_bytes pat) s.size
    then (if matches pat data_of off then (s.base + off) ∷ rest else rest)
    else []

unfoldable pub section_data_hits : HelperPattern → ImageSection → Option (ℕ → ℕ) → List ℕ
section_data_hits pat s none = []
section_data_hits pat s (some data_of) =
    if not s.is_code
    then []
    else if ltb s.size (total_bytes pat)
    then []
    else scan_section (s.size / 4 + 1) pat s data_of 0

-- `hits`, for one pattern.
unfoldable pub helper_hits : HelperPattern → List ImageSection → List ℕ
helper_hits pat [] = []
helper_hits pat (s ∷ sections) = section_data_hits pat s s.data_of ++ helper_hits pat sections

-- What `found` and `missing` gain by one pattern's hits.
unfoldable pub note_hits :
    ConfigField → List ℕ → List (ConfigField × ℕ) × ℕ → List (ConfigField × ℕ) × ℕ
note_hits f [] (found, missing) = (found, missing + 1)
note_hits f (hit ∷ hits) (found, missing) = (found ++ (f, hit) ∷ [], missing)

-- `findHelpers`, from what is found and missing so far on.
unfoldable pub find_helpers :
    List ImageSection → List HelperPattern → List (ConfigField × ℕ) × ℕ → List (ConfigField × ℕ) × ℕ
find_helpers sections [] result = result
find_helpers sections (pat ∷ patterns) result =
    find_helpers sections patterns (note_hits pat.config_field (helper_hits pat sections) result)
