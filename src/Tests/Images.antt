-- ===== src/Tests/Images.antt =====
-- A small image with two switches.
use wosrecomp.Base.{
  ℕ, ◌+◌, ◌*◌, ◌<◌, ◌≡◌, ◌↔◌, refl, inl, inr, true, false, get_or, ◌==◌, ◌||◌, if◌then◌else◌, some,
  List, [], ◌∷◌, arith,
}
use wosrecomp.XexInfo.{
  Image, PdataFunc, insn_at, classify, is_terminator, goes_on, find_function_end, scan_end,
  inferred_extent, infer_function_start, floor_addr, ceiling_addr, scan_start, start_behind,
  skip_padding, is_pad, or_floor, fix_switches,
}
use wosrecomp.XexInfo.Scan.{FirstEnd, find_function_end-finds}
use wosrecomp.XexInfo.Extents.{Gap}
use wosrecomp.XexInfo.Merge.{Disjoint, Covers, AskedBy, fix_switches-Disjoint}
use wosrecomp.XexInfo.Helpers.{
  ImageSection, HelperPattern, restgprlr_14_address, helper_patterns, find_helpers, helper_hits,
  note_hits, section_data_hits, scan_section, matches, same_bytes, no_follow_on,
}

-- `blr` at 0x1000 and 0x1010, and other instructions elsewhere.
abbrev image : Image
image = record {
  read_insn = λ a. some (if a == 0x1000 || a == 0x1010 then 0x4E80_0020 else 0x6000_0000);
  ppc_op = λ insn. 0;
  ppc_bl = λ insn. false;
}

abbrev records : List PdataFunc
records = record { begin = 0x0F00; end = 0x0F80 } ∷ record { begin = 0x2000; end = 0x2100 } ∷ []

end_at : FirstEnd image 0x1008 2
unfolding insn_at classify is_terminator
end_at = (refl, before)
  where
    before : (j : ℕ) → j < 2 → insn_at image (0x1008 + 4 * j) ≡ goes_on
    before j l = ground arith

found_end : find_function_end image 0x1008 0x2000 ≡ 0x1014
found_end =
    find_function_end-finds image 0x1008 0x2000 2 (omega arith) end_at (omega arith) (omega arith)

gap : Gap records 0x1008
gap = (inl (omega arith), (inr (omega arith), tt))

small_extent : inferred_extent image records 0x1008 (0x100C ∷ []) ≡ some (0x1004, 0x1014)
unfolding inferred_extent infer_function_start floor_addr ceiling_addr scan_start start_behind
    skip_padding is_pad or_floor insn_at classify is_terminator find_function_end scan_end
small_extent = refl

fix_switches-Disjoint_example :
    Disjoint 0 (fix_switches image records ((0x1008, 0x100C ∷ []) ∷ []))
    × ((a : ℕ)
        → Covers (fix_switches image records ((0x1008, 0x100C ∷ []) ∷ [])) a
          ↔ AskedBy image records ((0x1008, 0x100C ∷ []) ∷ []) a)
fix_switches-Disjoint_example = fix_switches-Disjoint image records ((0x1008, 0x100C ∷ []) ∷ [])

-- Sixteen bytes of code at 0x8000, with `ld r14, -0x98(r1)` and the load after it at 0x8004.
abbrev code_section : ImageSection
code_section = record {
  base = 0x8000;
  size = 16;
  is_code = true;
  data_of = some (λ p.
      get_or (0 ∷ 0 ∷ 0 ∷ 0 ∷ 0xE9 ∷ 0xC1 ∷ 0xFF ∷ 0x68 ∷ 0xE9 ∷ 0xE1 ∷ 0xFF ∷ 0x70 ∷ []) p 0);
}

abbrev restores_general : HelperPattern
restores_general = record {
  config_field = restgprlr_14_address;
  bytes = 0xE9 ∷ 0xC1 ∷ 0xFF ∷ 0x68 ∷ [];
  next = 0xE9 ∷ 0xE1 ∷ 0xFF ∷ 0x70 ∷ [];
}

-- One of the eight helpers is found.
found_helpers :
    find_helpers (code_section ∷ []) helper_patterns ([], 0)
    ≡ ((restgprlr_14_address, 0x8004) ∷ [], 7)
unfolding find_helpers helper_hits note_hits section_data_hits scan_section matches same_bytes
    no_follow_on
found_helpers = refl
