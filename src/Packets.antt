-- ===== src/Packets.antt =====
-- Executing the command stream, WoSRecomp/kernel/video.cpp: `ExecutePackets`. The loop of the
-- source runs on fuel, and its recursion on the number of levels that are left below the depth
-- limit; what the source prints is left out.
pub mod Fuel
pub mod Windows
pub mod Effects
use wosrecomp.Base.{
  ℕ, zero, suc, ◌+◌, ◌-◌, ◌*◌, ◌/◌, ◌%◌, ◌^◌, Bool, true, false, ◌&&◌, ◌||◌, not, if◌then◌else◌,
  ltb, leb, ◌==◌, Option, none, some, u32, bit_and, and_not32,
}
use wosrecomp.Guest.{Mem, load_u32, store_u32}
use wosrecomp.Pm4.{Census, record_packet, record_register}
use wosrecomp.Phys.{physical_to_virtual}

abbrev pub gpu_register_base : ℕ
gpu_register_base = 0x7FC8_0000

abbrev pub physical_alias : ℕ
physical_alias = 0xA000_0000

abbrev pub physical_alias_end : ℕ
physical_alias_end = 0xC000_0000

-- What a packet acts on: guest memory, the census, and `g_seenType3`.
pub record Gpu : Type 0 where
  pub mem : Mem
  pub census : Census
  pub seen : ℕ → Bool

-- The fields of a packet's header.
abbrev pub packet_type : ℕ → ℕ
packet_type header = header / 2 ^ 30

abbrev pub packet_count : ℕ → ℕ
packet_count header = header / 2 ^ 16 % 2 ^ 14 + 1

abbrev pub packet_opcode : ℕ → ℕ
packet_opcode header = header / 2 ^ 8 % 2 ^ 7

abbrev pub packet_register : ℕ → ℕ
packet_register header = header % 2 ^ 15

-- The word at an index of a buffer: `LoadU32(base, buffer + i * 4)`.
abbrev pub word : Gpu → ℕ → ℕ → ℕ
word g buffer i = load_u32 g.mem (buffer + i * 4)

unfoldable pub write_register : Gpu → ℕ → ℕ → Gpu
write_register g reg value = record g {
  mem = store_u32 g.mem (gpu_register_base + reg * 4) value;
  census = record_register g.census reg value;
}

-- The loop of a type-0 packet, with `n` values left from the `j`-th on.
unfoldable pub write_registers : ℕ → Gpu → ℕ → ℕ → ℕ → ℕ → ℕ → Gpu
write_registers zero g buffer dwords i first j = g
write_registers (suc n) g buffer dwords i first j =
    if ltb (u32 (i + 1 + j)) dwords
    then write_registers n (write_register g (first + j) (word g buffer (i + 1 + j))) buffer dwords
        i first (j + 1)
    else g

-- Counting a type-3 packet, and marking its opcode as seen.
unfoldable pub count_packet : Gpu → ℕ → Gpu
count_packet g opcode = record g {
  census = record_packet g.census opcode;
  seen = λ op. if op == opcode then true else g.seen op;
}

abbrev pub writes_memory : ℕ → Bool
writes_memory opcode = opcode == 0x58 || opcode == 0x46 || opcode == 0x5A

-- Where a write-to-memory packet goes: the low two bits of its address select the byte order.
unfoldable pub write_target : ℕ → ℕ
write_target raw = physical_to_virtual (and_not32 raw 3)

-- A write outside the alias window is refused.
unfoldable pub memory_write : Gpu → ℕ → ℕ → Gpu
memory_write g raw value =
    let target = write_target raw in
    if leb physical_alias target && ltb target physical_alias_end
    then record g { mem = store_u32 g.mem target value }
    else g

-- The execution of an indirect buffer: where it is and how many words it has.
abbrev pub Nested : Type 0
Nested = Gpu → ℕ → ℕ → Gpu

unfoldable pub indirect_buffer : Nested → Gpu → ℕ → ℕ → Gpu
indirect_buffer nested g physical words =
    let virt = physical_to_virtual physical in
    if not (virt == 0) && ltb 0 words && ltb words 0x40000 then nested g virt words else g

-- The body of a type-3 packet.
unfoldable pub command : Nested → Gpu → ℕ → ℕ → ℕ → ℕ → Gpu
command nested g buffer i opcode count =
    let g1 = count_packet g opcode in
    let g2 =
      if writes_memory opcode && leb 3 count
      then memory_write g1 (word g1 buffer (i + 2)) (word g1 buffer (i + 3))
      else g1 in
    if opcode == 0x3F && leb 2 count
    then indirect_buffer nested g2 (word g2 buffer (i + 1)) (word g2 buffer (i + 2))
    else g2

unfoldable pub run_packet : Nested → Gpu → ℕ → ℕ → ℕ → ℕ → Gpu
run_packet nested g buffer dwords i header =
    if packet_type header == 0
    then write_registers (packet_count header) g buffer dwords i (packet_register header) 0
    else if packet_type header == 3
    then command nested g buffer i (packet_opcode header) (packet_count header)
    else g

-- One turn of the loop: none if it ends, at the end of the buffer or at a truncated packet.
unfoldable pub packet_step : Nested → Gpu → ℕ → ℕ → ℕ → Option (Gpu × ℕ)
packet_step nested g buffer dwords i =
    let header = word g buffer i in
    let count = packet_count header in
    if not (ltb i dwords)
    then none
    else if packet_type header == 2
    then some (g, u32 (i + 1))
    else if leb dwords (u32 (i + count))
    then none
    else some (run_packet nested g buffer dwords i header, u32 (i + count + 1))

unfoldable pub walk : Nested → ℕ → Gpu → ℕ → ℕ → ℕ → Gpu
walk nested zero g buffer dwords i = g
walk nested (suc fuel) g buffer dwords i = elim (packet_step nested g buffer dwords i) [
  | none ↦ g
  | some (g', i') ↦ walk nested fuel g' buffer dwords i'
]

-- `ExecutePackets` at depth 4 - levels: at depth 4 indirect buffers are skipped.
unfoldable pub execute_packets : ℕ → Nested
execute_packets zero g buffer dwords = walk (λ g' a n. g') dwords g buffer dwords 0
execute_packets (suc levels) g buffer dwords =
    walk (execute_packets levels) dwords g buffer dwords 0
