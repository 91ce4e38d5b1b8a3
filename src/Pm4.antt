-- ===== src/Pm4.antt =====
-- The census of the command stream, WoSRecomp/gpu/pm4.cpp: names of opcodes and registers, and the
-- counts that the command processor keeps. `Pm4Report` only prints and is left out.
pub mod Counts
use Prim.Native.String.{String}
use wosrecomp.Base.{
  ℕ, ◌+◌, ◌^◌, Bool, ◌||◌, Option, none, some, List, [], ◌∷◌, ◌++◌, if◌then◌else◌, ltb, ◌==◌,
  length, u64,
}

-- `Named`.
abbrev pub Named : Type 0
Named = ℕ × String

pub opcodes : List Named
opcodes =
    (0x10, "ME_INIT?")
    ∷ (0x21, "COND_WRITE")
    ∷ (0x22, "DRAW_INDX")
    ∷ (0x23, "VIZ_QUERY")
    ∷ (0x24, "SET_STATE")
    ∷ (0x25, "WAIT_FOR_IDLE")
    ∷ (0x26, "IM_LOAD")
    ∷ (0x27, "IM_LOAD_IMMEDIATE")
    ∷ (0x2A, "INVALIDATE_STATE")
    ∷ (0x2B, "SET_CONSTANT")
    ∷ (0x2D, "SET_SHADER_CONSTANTS")
    ∷ (0x33, "DRAW_INDX_2")
    ∷ (0x36, "SET_BIN_MASK")
    ∷ (0x37, "SET_BIN_SELECT")
    ∷ (0x3B, "SET_CONSTANT_2")
    ∷ (0x3C, "WAIT_REG_MEM")
    ∷ (0x3D, "MEM_WRITE")
    ∷ (0x3F, "INDIRECT_BUFFER")
    ∷ (0x40, "REG_RMW")
    ∷ (0x48, "ME_INIT")
    ∷ (0x50, "INTERRUPT")
    ∷ (0x55, "EVENT_WRITE")
    ∷ (0x58, "EVENT_WRITE_SHD")
    ∷ (0x60, "SET_BIN_MASK_LO")
    ∷ (0x61, "SET_BIN_MASK_HI")
    ∷ (0x62, "SET_BIN_SELECT_LO")
    ∷ (0x63, "SET_BIN_SELECT_HI")
    ∷ []

pub registers : List Named
registers =
    (0x0A31, "CP_polled_by_the_game")
    ∷ (0x2000, "RB_SURFACE_INFO")
    ∷ (0x2001, "RB_COLOR_INFO")
    ∷ (0x2005, "RB_DEPTH_INFO")
    ∷ (0x2100, "PA_SC_WINDOW_OFFSET")
    ∷ (0x2104, "PA_SC_WINDOW_SCISSOR_TL")
    ∷ (0x2105, "PA_SC_WINDOW_SCISSOR_BR")
    ∷ (0x2280, "PA_SU_SC_MODE_CNTL")
    ∷ (0x2300, "PA_CL_VPORT_XSCALE")
    ∷ (0x2301, "PA_CL_VPORT_XOFFSET")
    ∷ (0x2302, "PA_CL_VPORT_YSCALE")
    ∷ (0x2303, "PA_CL_VPORT_YOFFSET")
    ∷ (0x2180, "SQ_PROGRAM_CNTL")
    ∷ (0x21F7, "SQ_VS_CONST")
    ∷ (0x21F8, "SQ_PS_CONST")
    ∷ (0x2200, "RB_MODECONTROL")
    ∷ (0x2208, "RB_DEPTHCONTROL")
    ∷ (0x2209, "RB_BLENDCONTROL")
    ∷ (0x220C, "RB_COLORCONTROL")
    ∷ []

-- `Lookup`: the name of the first entry with the id, or none for nullptr.
lookup : List Named → ℕ → Option String
lookup [] id = none
lookup ((i, name) ∷ table) id = if i == id then some name else lookup table id

-- `Pm4OpcodeName` and `Pm4RegisterName`.
pub opcode_name : ℕ → Option String
unfolding lookup opcodes
opcode_name opcode = lookup opcodes opcode

pub register_name : ℕ → Option String
unfolding lookup registers
register_name reg = lookup registers reg

-- `Pm4IsDraw`.
unfoldable pub is_draw : ℕ → Bool
is_draw opcode = opcode == 0x22 || opcode == 0x33

pub record OpcodeStat : Type 0 where
  pub opcode : ℕ
  pub count : ℕ

pub record RegisterStat : Type 0 where
  pub reg : ℕ
  pub last_value : ℕ
  pub writes : ℕ

-- `g_opcodes`, `g_registers` and `g_draws`.
pub record Census : Type 0 where
  pub opcodes_seen : List OpcodeStat
  pub registers_seen : List RegisterStat
  pub draws : ℕ

abbrev pub no_census : Census
no_census = record { opcodes_seen = []; registers_seen = []; draws = 0 }

abbrev pub max_registers : ℕ
max_registers = 512

unfoldable pub count_opcode : List OpcodeStat → ℕ → List OpcodeStat
count_opcode [] opcode = record { opcode = opcode; count = 1 } ∷ []
count_opcode (o ∷ os) opcode =
    if o.opcode == opcode
    then record o { count = u64 (o.count + 1) } ∷ os
    else o ∷ count_opcode os opcode

-- `Pm4RecordPacket`.
unfoldable pub record_packet : Census → ℕ → Census
unfolding is_draw count_opcode
record_packet c opcode = record {
  opcodes_seen = count_opcode c.opcodes_seen opcode;
  registers_seen = c.registers_seen;
  draws = if is_draw opcode then u64 (c.draws + 1) else c.draws;
}

-- The search of `Pm4RecordRegister`: none if the register is not there.
unfoldable pub update_register : List RegisterStat → ℕ → ℕ → Option (List RegisterStat)
update_register [] reg value = none
update_register (r ∷ rs) reg value =
    if r.reg == reg
    then some (record r { last_value = value; writes = u64 (r.writes + 1) } ∷ rs)
    else elim (update_register rs reg value) [ none ↦ none | some rs' ↦ some (r ∷ rs') ]

-- `Pm4RecordRegister`: a register that is new is dropped once the table is full.
unfoldable pub record_register : Census → ℕ → ℕ → Census
record_register c reg value = elim (update_register c.registers_seen reg value) [
  | some rs ↦ record c { registers_seen = rs }
  | none ↦
      if ltb (length c.registers_seen) max_registers
      then record c {
        registers_seen =
            c.registers_seen ++ record { reg = reg; last_value = value; writes = 1 } ∷ [];
      }
      else c
]
