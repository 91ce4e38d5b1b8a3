-- ===== src/XexInfo/Listing.antt =====
-- The listings of the analysis tool, tools/xex_info/main.cpp: the D-form accesses of a
-- displacement, and the branches to an address and the pointers to it. What is printed for a site
-- is left out.
pub mod Sites
pub mod Pointers
pub mod Fields
use wosrecomp.Base.{
  ℕ, zero, suc, ◌+◌, ◌/◌, ◌%◌, ◌^◌, Bool, true, false, ◌&&◌, ◌||◌, not, if◌then◌else◌, ltb, leb,
  ◌==◌, Option, none, some, List, [], ◌∷◌, ◌++◌, length, u16, u32,
}
use wosrecomp.XexImage.{XexSection, XexImage, big_word, backed_size}
use wosrecomp.XexInfo.{PdataFunc}
use wosrecomp.XexInfo.Disasm.{Decoder, branch_target}

-- A test of a word, at the address of its site.
abbrev pub Test : Type 0
Test = ℕ → ℕ → Bool

-- The sites in a section that starts at `base`, with its data at the host address `p`, from the
-- offset `off` on.
unfoldable pub word_sites : ℕ → Test → (ℕ → ℕ) → ℕ → ℕ → ℕ → ℕ → List ℕ
word_sites zero test host base p limit off = []
word_sites (suc fuel) test host base p limit off =
    let site = u32 (base + off) in
    let rest = word_sites fuel test host base p limit (u32 (off + 4)) in
    if leb (u32 (off + 4)) limit
    then (if test site (big_word host (p + off)) then site ∷ rest else rest)
    else []

unfoldable pub section_sites : Test → Bool → XexImage → XexSection → Option ℕ → List ℕ
section_sites test code_only im s none = []
section_sites test code_only im s (some p) =
    let limit = backed_size im s in
    if code_only && not s.is_code
    then []
    else word_sites (limit / 4 + 1) test im.host s.base p limit 0

unfoldable pub sites : Test → Bool → XexImage → List XexSection → List ℕ
sites test code_only im [] = []
sites test code_only im (s ∷ sections) =
    section_sites test code_only im s s.source ++ sites test code_only im sections

-- `kForms`: the opcodes of the D-form integer loads and stores, and whether each is a store.
abbrev pub forms : List (ℕ × Bool)
forms =
    (32, false)
    ∷ (33, false)
    ∷ (34, false)
    ∷ (35, false)
    ∷ (36, true)
    ∷ (37, true)
    ∷ (38, true)
    ∷ (39, true)
    ∷ (40, false)
    ∷ (41, false)
    ∷ (42, false)
    ∷ (43, false)
    ∷ (44, true)
    ∷ (45, true)
    ∷ []

unfoldable pub find_form : List (ℕ × Bool) → ℕ → Option Bool
find_form [] op = none
find_form ((op', is_store) ∷ rest) op = if op' == op then some is_store else find_form rest op

unfoldable pub is_field_access : ℕ → Bool → Test
is_field_access displacement stores_only site insn = elim (find_form forms (insn / 2 ^ 26)) [
  | none ↦ false
  | some is_store ↦ insn % 2 ^ 16 == u16 displacement && (not stores_only || is_store)
]

-- The sites that `fieldRefs` lists.
unfoldable pub field_refs : XexImage → ℕ → Bool → List ℕ
field_refs im displacement stores_only =
    sites (is_field_access displacement stores_only) true im im.sections

unfoldable pub leads_to : Decoder → ℕ → Test
leads_to dec addr site insn = branch_target dec site insn == addr

-- The direct branches that `xrefs` lists.
unfoldable pub direct_branches : Decoder → XexImage → ℕ → List ℕ
direct_branches dec im addr = sites (leads_to dec addr) true im im.sections

unfoldable pub points_to : ℕ → Test
points_to addr site word = word == addr

-- The loop of `xrefs` over a section for stored pointers, behind those found: it ends with the
-- 64th.
unfoldable pub scan_pointers : ℕ → ℕ → (ℕ → ℕ) → ℕ → ℕ → ℕ → ℕ → List ℕ → List ℕ
scan_pointers zero addr host base p limit off found = found
scan_pointers (suc fuel) addr host base p limit off found =
    let found' = found ++ u32 (base + off) ∷ [] in
    if leb (u32 (off + 4)) limit
    then elim (big_word host (p + off) == addr) [
      | false ↦ scan_pointers fuel addr host base p limit (u32 (off + 4)) found
      | true ↦ elim (leb 64 (length found')) [
        | true ↦ found'
        | false ↦ scan_pointers fuel addr host base p limit (u32 (off + 4)) found'
      ]
    ]
    else found

unfoldable pub section_pointers : XexImage → ℕ → XexSection → Option ℕ → List ℕ → List ℕ
section_pointers im addr s none found = found
section_pointers im addr s (some p) found =
    let limit = backed_size im s in
    scan_pointers (limit / 4 + 1) addr im.host s.base p limit 0 found

unfoldable pub stored_pointers : XexImage → ℕ → List XexSection → List ℕ → List ℕ
stored_pointers im addr [] found = found
stored_pointers im addr (s ∷ sections) found =
    let found' = section_pointers im addr s s.source found in
    let rest = stored_pointers im addr sections found' in
    if leb 64 (length found') then found' else rest

-- `functionOf`: the beginning of the record that covers an address, or 0.
unfoldable pub function_of : List PdataFunc → ℕ → ℕ
function_of [] a = 0
function_of (f ∷ fs) a = if leb f.begin a && ltb a f.end then f.begin else function_of fs a
