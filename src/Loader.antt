-- ===== src/Loader.antt =====
-- The loading of the image and of the function table, and the committing of guest pages on first
-- touch, WoSRecomp/main.cpp. The layout constants come from the recompiler's generated header, and
-- are parameters; so are the mappings of functions and whether the host commits a range. The host's
-- base address is left out: host memory from it on is `Mem`. The reports are left out too.
pub mod Align
pub mod Sections
pub mod Table
pub mod Pages
use wosrecomp.Base.{
  ℕ, zero, suc, ◌+◌, ◌-◌, ◌*◌, ◌^◌, Bool, true, false, ◌&&◌, ◌||◌, not, if◌then◌else◌, ltb, leb,
  ◌==◌, Option, none, some, List, [], ◌∷◌, u32, u64, sub32, and_not64,
}
use wosrecomp.Guest.{Mem, copy_out, copy_in}
use wosrecomp.Heap.{Commit}
use wosrecomp.XexImage.{XexSection, XexImage}

-- PPC_IMAGE_BASE, PPC_IMAGE_SIZE, PPC_CODE_BASE, PPC_CODE_SIZE and PPC_MEMORY_SIZE.
pub record Layout : Type 0 where
  pub image_base : ℕ
  pub image_size : ℕ
  pub code_base : ℕ
  pub code_size : ℕ
  pub memory_size : ℕ

unfoldable pub func_table_offset : Layout → ℕ
func_table_offset y = y.image_base + y.image_size

unfoldable pub func_table_size : Layout → ℕ
func_table_size y = y.code_size * 2

abbrev pub align_page_size : ℕ
align_page_size = 0x1_0000

unfoldable pub page_align : ℕ → ℕ → ℕ × ℕ
page_align start size =
    let end = and_not64 (u64 (start + size + align_page_size + 2 ^ 64 - 1)) (align_page_size - 1) in
    let start' = and_not64 start (align_page_size - 1) in (start', u64 (end + 2 ^ 64 - start'))

unfoldable pub clean_chars : ℕ → List ℕ → List ℕ
clean_chars zero raw = []
clean_chars (suc n) [] = []
clean_chars (suc n) (c ∷ raw) =
    let rest = clean_chars n raw in if ltb c 0x20 || ltb 0x7E c then [] else c ∷ rest

-- `<unnamed>`.
abbrev unnamed : List ℕ
unnamed = 60 ∷ 117 ∷ 110 ∷ 110 ∷ 97 ∷ 109 ∷ 101 ∷ 100 ∷ 62 ∷ []

unfoldable pub clean_name : List ℕ → List ℕ
clean_name raw = elim (clean_chars 8 raw) [ [] ↦ unnamed | c ∷ cs ↦ c ∷ cs ]

-- How many bytes of a section's source are copied, and whether the section counts as bad.
unfoldable pub copy_from : XexImage → ℕ → ℕ → ℕ × Bool
copy_from im size p =
    let image_end = im.buffer + im.size in
    if ltb p im.buffer || leb image_end p
    then (0, true)
    else if ltb image_end (p + size)
    then (image_end - p, true)
    else (size, false)

unfoldable pub copy_of : XexImage → XexSection → ℕ × Bool
copy_of im s = elim s.source [ none ↦ (0, false) | some p ↦ copy_from im s.size p ]

-- `memcpy` of `n` bytes.
unfoldable pub copy_bytes : Mem → ℕ → (ℕ → ℕ) → ℕ → ℕ → Mem
copy_bytes m dest host p n a = if leb dest a && ltb a (dest + n) then host (p + (a - dest)) else m a

unfoldable pub source_or_0 : XexSection → ℕ
source_or_0 s = elim s.source [ none ↦ 0 | some p ↦ p ]

-- A turn of the loop over the sections: guest memory and `badSections`, or none where the host does
-- not commit the range.
unfoldable pub map_section : Commit → Layout → XexImage → XexSection → Mem × ℕ → Option (Mem × ℕ)
map_section commit y im s (m, bad) =
    let (start, size) = page_align s.base s.size in
    let (copy, is_bad) = copy_of im s in
    if ltb y.memory_size (s.base + s.size)
    then some (m, bad + 1)
    else if not (commit start size)
    then none
    else some (copy_bytes m s.base im.host (source_or_0 s) copy, if is_bad then bad + 1 else bad)

unfoldable pub map_sections :
    Commit → Layout → XexImage → List XexSection → Mem × ℕ → Option (Mem × ℕ)
map_sections commit y im [] state = some state
map_sections commit y im (s ∷ sections) state = elim (map_section commit y im s state) [
  | none ↦ none
  | some state' ↦ map_sections commit y im sections state'
]

unfoldable pub in_code : Layout → ℕ → Bool
in_code y guest = not (ltb guest y.code_base || leb (y.code_base + y.code_size) guest)

-- Where the table holds the host function for a guest address.
unfoldable pub slot : Layout → ℕ → ℕ
slot y guest = func_table_offset y + u64 (u32 guest + 2 ^ 64 - y.code_base) * 2

-- The loop over PPCFuncMappings: guest addresses and host functions, stored lowest byte first.
unfoldable pub populate : Layout → List (ℕ × ℕ) → Mem → Mem
populate y [] m = m
populate y ((guest, host) ∷ mappings) m =
    populate y mappings (if in_code y guest then copy_in 8 m (slot y guest) host else m)

-- The host function for the entry point, if there is one.
unfoldable pub resolve_entry : Layout → Mem → ℕ → Option ℕ
resolve_entry y m entry_point =
    let entry = copy_out 8 m (slot y entry_point) in
    if not (in_code y entry_point) then none else if entry == 0 then none else some entry

-- What `main` does until it calls the entry point: the function to call and guest memory. The block
-- of the first thread is the subject of Pcr.
unfoldable pub load_image : Commit → Layout → XexImage → List (ℕ × ℕ) → ℕ → Mem → Option (ℕ × Mem)
load_image commit y im mappings entry_point m = elim (map_sections commit y im im.sections (m, 0)) [
  | none ↦ none
  | some (m₁, bad) ↦
      let m₂ = populate y mappings m₁ in
      if not (commit (func_table_offset y) (func_table_size y))
      then none
      else elim (resolve_entry y m₂ entry_point) [
        | none ↦ none
        | some entry ↦
            if commit (sub32 (sub32 y.image_base 0x1000) 0x4_0000) (0x4_0000 + 0x1000)
            then some (entry, m₂)
            else none
      ]
]
