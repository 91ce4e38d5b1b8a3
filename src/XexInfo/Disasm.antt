-- ===== src/XexInfo/Disasm.antt =====
-- The first pass of `disasm`, tools/xex_info/main.cpp: how far a function goes, and what it
-- branches to; the rest of `disasm` prints. The section that holds the address is given. The fields
-- of an instruction word are macros of the disassembler, and parameters.
pub mod Turn
pub mod Walk
pub mod Labels
use wosrecomp.Base.{
  ℕ, zero, suc, ◌+◌, ◌-◌, ◌^◌, Bool, true, false, ◌&&◌, ◌||◌, not, if◌then◌else◌, ltb, leb, ◌==◌,
  max, Option, none, some, List, [], ◌∷◌, ◌++◌, sort_by, u32,
}
use wosrecomp.XexImage.{XexSection, big_word}
use wosrecomp.XexInfo.{Image, is_terminator, PdataFunc}

-- PPC_BA, PPC_BI and PPC_BD besides the fields of `Image`; the displacements are given by their
-- 32-bit patterns.
pub record Decoder : Type 0 where
  pub image : Image
  pub ppc_ba : ℕ → Bool
  pub ppc_bi : ℕ → ℕ
  pub ppc_bd : ℕ → ℕ

-- `branchTarget`: 0 for an instruction that is no branch.
unfoldable pub branch_target : Decoder → ℕ → ℕ → ℕ
branch_target dec addr insn =
    let from = if dec.ppc_ba insn then 0 else addr in
    if dec.image.ppc_op insn == 18
    then u32 (from + dec.ppc_bi insn)
    else if dec.image.ppc_op insn == 16
    then u32 (from + dec.ppc_bd insn)
    else 0

unfoldable pub is_call_insn : Decoder → ℕ → Bool
is_call_insn dec insn =
    let op = dec.image.ppc_op insn in (op == 18 || op == 16) && dec.image.ppc_bl insn

-- `readAt`, in a section whose data is at the host address `p`.
unfoldable pub read_at : (ℕ → ℕ) → XexSection → ℕ → ℕ → Option ℕ
read_at host s p a =
    if ltb a s.base || ltb (s.base + s.size) (u32 (a + 4))
    then none
    else some (big_word host (p + (a - s.base)))

-- What a walk reads by: the decoder, the words at the addresses, whether it goes on until the end
-- of the function, and the ceiling, 0 where none is known.
pub record Walker : Type 0 where
  pub decoder : Decoder
  pub word_at : ℕ → Option ℕ
  pub until_end : Bool
  pub ceiling : ℕ

-- The end of the record that covers an address, or else the beginning of the next one.
unfoldable pub disasm_ceiling : List PdataFunc → ℕ → ℕ
disasm_ceiling [] addr = 0
disasm_ceiling (f ∷ fs) addr =
    if leb f.begin addr && ltb addr f.end
    then f.end
    else if ltb addr f.begin
    then f.begin
    else disasm_ceiling fs addr

-- A branch that is no call, and whose target is not 0, is followed.
unfoldable pub followed : Decoder → ℕ → ℕ → ℕ
followed dec a insn = if is_call_insn dec insn then 0 else branch_target dec a insn

-- Whether the walk stops behind the instruction at `a`.
unfoldable pub stops_walk : Walker → ℕ → ℕ → ℕ → Bool
stops_walk w a insn furthest =
    w.until_end
    && ((is_terminator w.decoder.image insn && leb furthest a)
        || (not (w.ceiling == 0) && leb w.ceiling (u32 (a + 4))))

-- The loop of the first pass, on fuel: the end of what it has read, and the targets in order.
unfoldable pub walk_from : ℕ → Walker → ℕ → ℕ → ℕ → List ℕ → ℕ × List ℕ
walk_from zero w a furthest end labels = (end, labels)
walk_from (suc fuel) w a furthest end labels = elim (w.word_at a) [
  | none ↦ (end, labels)
  | some insn ↦
      let t = followed w.decoder a insn in
      let furthest' = max furthest t in
      let labels' = if t == 0 then labels else labels ++ t ∷ [] in
      elim (stops_walk w a insn furthest') [
        | true ↦ (u32 (a + 4), labels')
        | false ↦ walk_from fuel w (u32 (a + 4)) furthest' (u32 (a + 4)) labels'
      ]
]

-- `std::unique` and `erase`: `t` is the last one kept.
unfoldable pub unique_from : ℕ → List ℕ → List ℕ
unique_from t [] = t ∷ []
unique_from t (u ∷ us) = elim (t == u) [ true ↦ unique_from t us | false ↦ t ∷ unique_from u us ]

unfoldable pub unique_labels : List ℕ → List ℕ
unique_labels [] = []
unique_labels (t ∷ ts) = unique_from t ts

-- The first pass from `addr` on, over `count` instructions, or to the end where `count` is 0.
unfoldable pub scan_limit : ℕ → ℕ
scan_limit count = if count == 0 then 0x4000 else count

unfoldable pub disasm_extent : Decoder → (ℕ → Option ℕ) → List PdataFunc → ℕ → ℕ → ℕ × List ℕ
disasm_extent dec word_at pdata addr count =
    let w : Walker = record {
      decoder = dec;
      word_at = word_at;
      until_end = count == 0;
      ceiling = disasm_ceiling pdata addr;
    } in
    let (end, labels) = walk_from (scan_limit count) w addr addr addr [] in
    (end, unique_labels (sort_by (λ t. t) labels))

-- What the footer says of a whole function: the last instruction is a terminator.
unfoldable pub says_whole : Decoder → (ℕ → Option ℕ) → ℕ → Bool
says_whole dec word_at end = elim (word_at (u32 (end + 2 ^ 32 - 4))) [
  | none ↦ false
  | some insn ↦ is_terminator dec.image insn
]
