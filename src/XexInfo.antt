-- ===== src/XexInfo.antt =====
-- Function extents for the recompiler, tools/xex_info/main.cpp: `isTerminator`, `findFunctionEnd`,
-- `inferFunctionStart` and the core of `fixSwitches`. An image is a parameter: what `readInsn`
-- gives at an address. The fields of an instruction word are macros of the disassembler, and
-- parameters too. Switch sites come with the targets read from the table.
pub mod Scan
pub mod Extents
pub mod Merge
pub mod Helpers
pub mod Signatures
pub mod SectionScan
pub mod Hits
pub mod Disasm
pub mod Listing
pub mod Pdata
use wosrecomp.Base.{
  ℕ, zero, suc, ◌+◌, ◌-◌, ◌*◌, ◌^◌, Bool, true, false, ◌&&◌, ◌||◌, not, if◌then◌else◌, ltb, leb,
  ◌==◌, min, max, Option, none, some, List, [], ◌∷◌, u32,
}

pub record Image : Type 0 where
  pub read_insn : ℕ → Option ℕ
  pub ppc_op : ℕ → ℕ
  pub ppc_bl : ℕ → Bool

unfoldable pub is_terminator : Image → ℕ → Bool
is_terminator im insn =
    insn == 0x4E80_0020 || insn == 0x4E80_0420 || (im.ppc_op insn == 18 && not (im.ppc_bl insn))

abbrev pub max_scan : ℕ
max_scan = 0x8000

-- What an address holds for the scans: no code, a terminator, or another instruction.
pub data Insn : Type 0 where
  unmapped : Insn
  ends : Insn
  goes_on : Insn

unfoldable pub classify : Image → Option ℕ → Insn
classify im none = unmapped
classify im (some insn) = if is_terminator im insn then ends else goes_on

unfoldable pub insn_at : Image → ℕ → Insn
insn_at im a = classify im (im.read_insn a)

-- The loop of `findFunctionEnd`, on fuel.
unfoldable pub scan_end : ℕ → Image → ℕ → ℕ → ℕ
scan_end zero im limit a = 0
scan_end (suc fuel) im limit a =
    if ltb a limit
    then elim (insn_at im a) [
      | unmapped ↦ 0
      | ends ↦ u32 (a + 4)
      | goes_on ↦ scan_end fuel im limit (u32 (a + 4))
    ]
    else 0

-- `findFunctionEnd`: 0 if there is no end.
unfoldable pub find_function_end : Image → ℕ → ℕ → ℕ
find_function_end im from ceiling = scan_end 0x2000 im (min ceiling (u32 (from + max_scan))) from

-- Whether an address holds padding.
unfoldable pub is_pad : Option ℕ → Bool
is_pad none = false
is_pad (some insn) = insn == 0

-- `while (start < site && readInsn(image, start, pad) && pad == 0) start += 4`, on fuel.
unfoldable pub skip_padding : ℕ → Image → ℕ → ℕ → ℕ
skip_padding zero im site start = start
skip_padding (suc fuel) im site start =
    let rest = skip_padding fuel im site (u32 (start + 4)) in
    if ltb start site && is_pad (im.read_insn start) then rest else start

-- The start behind a terminator at `a`, or 0.
unfoldable pub start_behind : Image → ℕ → ℕ → ℕ
start_behind im site a =
    let start = skip_padding 0x2001 im site (u32 (a + 4)) in if ltb start site then start else 0

-- The loop of `inferFunctionStart`, on fuel: none where it runs into the lower limit.
unfoldable pub scan_start : ℕ → Image → ℕ → ℕ → ℕ → Option ℕ
scan_start zero im site limit a = none
scan_start (suc fuel) im site limit a =
    if leb limit a && ltb a site
    then elim (insn_at im a) [
      | unmapped ↦ some 0
      | ends ↦ some (start_behind im site a)
      | goes_on ↦ scan_start fuel im site limit (u32 (a + 2 ^ 32 - 4))
    ]
    else none

unfoldable pub or_floor : Option ℕ → ℕ → ℕ → ℕ
or_floor (some start) site floor = start
or_floor none site floor = if not (floor == 0) && ltb floor site then floor else 0

-- `inferFunctionStart`: 0 if there is no plausible start.
unfoldable pub infer_function_start : Image → ℕ → ℕ → ℕ
infer_function_start im site floor =
    let limit = max floor (if ltb max_scan site then site - max_scan else 0) in
    or_floor (scan_start 0x2001 im site limit (u32 (site + 2 ^ 32 - 4))) site floor

-- `PdataFunc`.
pub record PdataFunc : Type 0 where
  pub begin : ℕ
  pub end : ℕ

-- `containing`, on records sorted by their beginning: the last one that begins at the address or
-- before, if it has not ended there.
unfoldable pub last_before : List PdataFunc → ℕ → Option PdataFunc → Option PdataFunc
last_before [] addr best = best
last_before (f ∷ fs) addr best = if ltb addr f.begin then best else last_before fs addr (some f)

unfoldable pub containing : List PdataFunc → ℕ → Option PdataFunc
containing pdata addr = elim (last_before pdata addr none) [
  | none ↦ none
  | some f ↦ if ltb addr f.end then some f else none
]

-- The end of the nearest record that ends before the site.
unfoldable pub floor_addr : List PdataFunc → ℕ → ℕ → ℕ
floor_addr [] site best = best
floor_addr (f ∷ fs) site best =
    if leb f.end site
    then floor_addr fs site (max best f.end)
    else if ltb site f.begin
    then best
    else floor_addr fs site best

-- Where the next record begins.
unfoldable pub ceiling_addr : List PdataFunc → ℕ → ℕ
ceiling_addr [] site = 2 ^ 32 - 1
ceiling_addr (f ∷ fs) site = if ltb site f.begin then f.begin else ceiling_addr fs site

abbrev pub max_target : List ℕ → ℕ → ℕ
max_target [] best = best
max_target (t ∷ ts) best = max_target ts (max best t)

-- Where a record has to end for the targets at or behind its end.
unfoldable pub need_end : List ℕ → ℕ → ℕ → ℕ
need_end [] fn_end need = need
need_end (t ∷ ts) fn_end need =
    if leb fn_end t then need_end ts fn_end (max need (u32 (t + 4))) else need_end ts fn_end need

unfoldable pub is_outside : List ℕ → ℕ → Bool
is_outside [] fn_end = false
is_outside (t ∷ ts) fn_end = leb fn_end t || is_outside ts fn_end

-- The extent of a site that no record covers.
unfoldable pub inferred_extent : Image → List PdataFunc → ℕ → List ℕ → Option (ℕ × ℕ)
inferred_extent im pdata site targets =
    let start = infer_function_start im site (floor_addr pdata site 0) in
    let ceiling = ceiling_addr pdata site in
    let found =
      find_function_end im (max (u32 (max_target targets 0 + 4)) (u32 (site + 4))) ceiling in
    let end = if found == 0 then ceiling else found in
    if start == 0 then none else some (start, min end ceiling)

-- The extent of a record that targets escape from.
unfoldable pub widened_extent : Image → List PdataFunc → ℕ → List ℕ → PdataFunc → Option (ℕ × ℕ)
widened_extent im pdata site targets fn =
    let need = need_end targets fn.end fn.end in
    let ceiling = ceiling_addr pdata site in
    let snapped = find_function_end im need ceiling in
    if is_outside targets fn.end
    then some (fn.begin, if snapped == 0 then min need ceiling else snapped)
    else none

-- A turn of the loop over the switches.
unfoldable pub extent : Image → List PdataFunc → ℕ → List ℕ → Option (ℕ × ℕ)
extent im pdata site [] = none
extent im pdata site (t ∷ ts) = elim (containing pdata site) [
  | none ↦ inferred_extent im pdata site (t ∷ ts)
  | some fn ↦ widened_extent im pdata site (t ∷ ts) fn
]

-- `widened.emplace`, and the larger end where the start is there: a `std::map` by start.
unfoldable pub widen : List (ℕ × ℕ) → ℕ → ℕ → List (ℕ × ℕ)
widen [] start end = (start, end) ∷ []
widen ((s, e) ∷ m) start end =
    if s == start
    then (s, max e end) ∷ m
    else if ltb start s
    then (start, end) ∷ (s, e) ∷ m
    else (s, e) ∷ widen m start end

unfoldable pub widen_some : List (ℕ × ℕ) → Option (ℕ × ℕ) → List (ℕ × ℕ)
widen_some m none = m
widen_some m (some (start, end)) = widen m start end

unfoldable pub widen_all : Image → List PdataFunc → List (ℕ × List ℕ) → List (ℕ × ℕ) → List (ℕ × ℕ)
widen_all im pdata [] m = m
widen_all im pdata ((site, targets) ∷ switches) m =
    widen_all im pdata switches (widen_some m (extent im pdata site targets))

-- The merging of overlapping extents, from the last one on.
unfoldable pub merge_from : ℕ → ℕ → List (ℕ × ℕ) → List (ℕ × ℕ)
merge_from s e [] = (s, e) ∷ []
merge_from s e ((s', e') ∷ m) =
    if ltb s' e then merge_from s (max e e') m else (s, e) ∷ merge_from s' e' m

unfoldable pub merge : List (ℕ × ℕ) → List (ℕ × ℕ)
merge [] = []
merge ((s, e) ∷ m) = merge_from s e m

-- The extents that `fixSwitches` declares.
unfoldable pub fix_switches : Image → List PdataFunc → List (ℕ × List ℕ) → List (ℕ × ℕ)
fix_switches im pdata switches = merge (widen_all im pdata switches [])
