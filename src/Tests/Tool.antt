-- ===== src/Tests/Tool.antt =====
-- The analysis tool and the loader on a small image.
use wosrecomp.Base.{
  ℕ, ◌+◌, ◌-◌, ◌*◌, ◌/◌, ◌%◌, ◌^◌, ◌<◌, ◌≡◌, ◌↔◌, refl, true, false, ◌==◌, if◌then◌else◌, Option,
  none, some, List, [], ◌∷◌, All, take, Rising, sort_by, insert_by, get_or, arith,
}
use mathlib.Core.List.{Memᴰ}
use wosrecomp.Guest.{Mem, copy_out}
use wosrecomp.Guest.Word.{bswap32}
use wosrecomp.XexImage.{XexSection, XexImage, big_word, backed_size, backed_from}
use wosrecomp.XexInfo.{Image, PdataFunc, is_terminator}
use wosrecomp.XexInfo.Disasm.{
  Decoder, Walker, disasm_extent, scan_limit, disasm_ceiling, walk_from, stops_walk, followed,
  is_call_insn, branch_target, unique_labels, unique_from, says_whole,
}
use wosrecomp.XexInfo.Listing.{
  field_refs, sites, points_to, stored_pointers, word_sites, section_sites, is_field_access,
  find_form,
}
use wosrecomp.XexInfo.Listing.Pointers.{stored_pointers-take}
use wosrecomp.XexInfo.Pdata.{read_pdata}
use wosrecomp.XexInfo.Pdata.Order.{IsEntry, read_pdata-IsTable}
use wosrecomp.Loader.{Layout, map_sections}
use wosrecomp.Loader.Sections.{Maps, Clear, map_sections-Maps}
use wosrecomp.Loader.Pages.{Reservation, Fault, Pages}
use wosrecomp.Loader.Pages.Limits.{Committing}

-- The opcode is the upper six bits; a branch's displacement the bits below, a call by the lowest.
abbrev fields : Image
fields = record {
  read_insn = λ a. none;
  ppc_op = λ insn. insn / 2 ^ 26;
  ppc_bl = λ insn. insn % 2 == 1;
}

abbrev decoder : Decoder
decoder = record {
  image = fields;
  ppc_ba = λ insn. false;
  ppc_bi = λ insn. insn % 2 ^ 26 / 4 * 4;
  ppc_bd = λ insn. insn % 2 ^ 16 / 4 * 4;
}

-- At 0x1000: `bc +12`, `blr`, another instruction, `blr`, and nothing behind.
abbrev words : ℕ → Option ℕ
words a =
    if a == 0x1000
    then some 0x4082_000C
    else if a == 0x1004
    then some 0x4E80_0020
    else if a == 0x1008
    then some 0x6000_0000
    else if a == 0x100C
    then some 0x4E80_0020
    else none

abbrev no_ceiling : Walker
no_ceiling = record { decoder = decoder; word_at = words; until_end = 0 == 0; ceiling = 0 }

-- The first `blr` is an early return, which the branch leads behind.
early_return : disasm_extent decoder words [] 0x1000 0 ≡ (0x1010, 0x100C ∷ [])
unfolding disasm_extent scan_limit disasm_ceiling walk_from stops_walk followed is_call_insn
    branch_target unique_labels unique_from sort_by insert_by is_terminator
early_return = refl

-- A record that ends behind the early return cuts the function there, and the footer still calls it
-- whole.
cut_short :
    (disasm_extent decoder words (record { begin = 0x1000; end = 0x1008 } ∷ []) 0x1000 0
      ≡ (0x1008, 0x100C ∷ []))
    × (says_whole decoder words 0x1008 ≡ true)
unfolding disasm_extent scan_limit disasm_ceiling walk_from stops_walk followed is_call_insn
    branch_target unique_labels unique_from sort_by insert_by is_terminator says_whole
cut_short = (refl, refl)

-- Twelve bytes at 0x5000: `stb r9, 10942(r3)`, a pointer to 0x8000, and half a word.
abbrev host : ℕ → ℕ
host a = get_or (0x99 ∷ 0x23 ∷ 0x2A ∷ 0xBE ∷ 0 ∷ 0 ∷ 0x80 ∷ 0 ∷ 0x60 ∷ 0 ∷ []) (a - 0x5000) 0

abbrev code : XexSection
code = record { base = 0x8_0000; size = 16; is_code = true; source = some 0x5000 }

abbrev image : XexImage
image = record { buffer = 0x5000; size = 10; host = host; sections = code ∷ [] }

one_store : field_refs image 10942 true ≡ 0x8_0000 ∷ []
unfolding field_refs sites section_sites word_sites is_field_access find_form big_word backed_size
    backed_from copy_out bswap32
one_store = refl

stored_pointers-take_example :
    stored_pointers image 0x8000 (code ∷ []) []
    ≡ take 64 (sites (points_to 0x8000) false image (code ∷ []))
stored_pointers-take_example = stored_pointers-take image 0x8000 (code ∷ []) [] (omega arith)

read_pdata-IsTable_example :
    Rising (λ f. f.begin) 0 (read_pdata (λ w. w % 2 ^ 22) host 8 0x5000)
    × ((f : PdataFunc)
        → Memᴰ f (read_pdata (λ w. w % 2 ^ 22) host 8 0x5000)
          ↔ ((i : ℕ) × (i < 8 / 8) × IsEntry (λ w. w % 2 ^ 22) host (0x5000 + 8 * i) f))
read_pdata-IsTable_example = read_pdata-IsTable (λ w. w % 2 ^ 22) host 8 0x5000

abbrev layout : Layout
layout = record {
  image_base = 0x8_0000;
  image_size = 0x1000;
  code_base = 0x8_0000;
  code_size = 0x100;
  memory_size = 0x10_0000;
}

abbrev blank : Mem
blank a = 0

map_sections-Maps_example :
    (r : Mem × ℕ) × (map_sections (λ a n. true) layout image (code ∷ []) (blank, 0) ≡ some r)
    × All (Maps layout image r.0) (code ∷ [])
    × ((a : ℕ) → All (Clear layout image a) (code ∷ []) → r.0 a ≡ blank a)
map_sections-Maps_example =
    map_sections-Maps (λ a n. true) (λ a n. refl) layout image (code ∷ []) blank 0 (tt, tt)

abbrev mappings : List (ℕ × ℕ)
mappings = (0x8_0000, 0x7000) ∷ (0x8_0010, 0x7010) ∷ []

abbrev reservation : Reservation
reservation = record {
  auto_commit = true;
  guest_base = 0x100_0000;
  guest_size = 2 ^ 32;
  stack_top = 0x81FF_F000;
}

abbrev touch : Fault
touch = record { is_access_violation = true; number_parameters = 2; address = 0x9400_0004 }

abbrev untouched : Pages
untouched = record { bytes = 0; commits = 0; stack_bytes = 0 }

abbrev one_in_flight : Committing
one_in_flight = record { pages = untouched; in_flight = 1 }
