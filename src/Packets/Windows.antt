-- ===== src/Packets/Windows.antt =====
-- Where the command stream may write.
use wosrecomp.Base.{
  ℕ, zero, suc, ◌+◌, ◌*◌, ◌%◌, ◌^◌, ◌≤◌, ◌<◌, ◌≡◌, refl, ap, ◌∙◌, ◌⊎◌, inl, inr, some, Option-cases,
  Bool-cases, ltb, leb, ◌&&◌, if◌then◌else◌, arith, u32, and_not-align,
}
use wosrecomp.Guest.{Mem, load_u32, copy_out, store_u32}
use wosrecomp.Guest.Word.{bswap32, bswap32-lt}
use wosrecomp.Guest.Laws.{copy_in-SameOutside}
use wosrecomp.Phys.{physical_to_virtual}
use wosrecomp.Packets.Fuel.{walk_stop, walk_go}
use wosrecomp.Packets.{
  writes_memory, Gpu, Nested, gpu_register_base, physical_alias, physical_alias_end, write_register,
  write_registers, count_packet, write_target, memory_write, indirect_buffer, command, packet_count,
  packet_register, packet_opcode, word, run_packet, packet_step, walk, execute_packets,
}

-- The registers that a packet can name end here: the last is 0x7FFF + 0x3FFF.
abbrev pub gpu_register_end : ℕ
gpu_register_end = gpu_register_base + 0xBFFF * 4

-- Outside the register window and the alias window.
abbrev pub Outside : ℕ → Type 0
Outside a =
    (((a < gpu_register_base) ⊎ (gpu_register_end ≤ a))
      × ((a < physical_alias) ⊎ (physical_alias_end ≤ a)))

-- Bytes outside both windows are the same.
abbrev pub Keeps : Gpu → Gpu → Type 0
Keeps g g' = (a : ℕ) → Outside a → g'.mem a ≡ g.mem a

store_u32-outside :
    (m : Mem) (addr value a : ℕ)
    → (a < u32 addr) ⊎ (u32 addr + 4 ≤ a)
    → store_u32 m addr value a ≡ m a
unfolding store_u32
store_u32-outside m addr value a h = copy_in-SameOutside 4 m (u32 addr) (bswap32 value) a h

write_registers-Keeps :
    (n : ℕ) (g : Gpu) (buffer dwords i first j : ℕ)
    → first + j + n ≤ 0xBFFF
    → Keeps g (write_registers n g buffer dwords i first j)
unfolding write_registers write_register
write_registers-Keeps zero g buffer dwords i first j h a o = refl
write_registers-Keeps (suc n) g buffer dwords i first j h a o =
    elim (Bool-cases (ltb (u32 (i + 1 + j)) dwords)) [
      | inl e ↦ rw e (
          write_registers-Keeps n (write_register g (first + j) (word g buffer (i + 1 + j))) buffer
            dwords i first (j + 1) (omega arith) a o
          ∙ store_u32-outside g.mem (gpu_register_base + (first + j) * 4)
              (word g buffer (i + 1 + j)) a (omega (arith, o)))
      | inr e ↦ rw e refl
    ]

-- A target that is let through is a whole word of the alias window.
pub write_target-aligned : (raw : ℕ) → raw < 2 ^ 32 → write_target raw % 4 ≡ 0
unfolding write_target physical_to_virtual
write_target-aligned raw h = ground (arith, and_not-align 2 30 32 raw)

memory_write-Keeps : (g : Gpu) (raw value : ℕ) → raw < 2 ^ 32 → Keeps g (memory_write g raw value)
unfolding memory_write
memory_write-Keeps g raw value h a o =
    ground (arith, write_target-aligned raw h, store_u32-outside g.mem (write_target raw) value a)

-- A nested execution that stays in the windows.
abbrev KeepsAll : Nested → Type 0
KeepsAll nested = (g : Gpu) (buffer words : ℕ) → Keeps g (nested g buffer words)

pub word-lt : (g : Gpu) (buffer i : ℕ) → word g buffer i < 2 ^ 32
unfolding load_u32
word-lt g buffer i = bswap32-lt (copy_out 4 g.mem (u32 (buffer + i * 4)))

register-room : (header : ℕ) → packet_register header + 0 + packet_count header ≤ 0xBFFF
register-room header = omega arith

module _ (nested : Nested) (inner : KeepsAll nested) where
  indirect_buffer-Keeps :
      (g : Gpu) (physical words : ℕ) → Keeps g (indirect_buffer nested g physical words)
  unfolding indirect_buffer
  indirect_buffer-Keeps g physical words a o =
      ground (arith, inner g (physical_to_virtual physical) words a o)

  -- The memory write of a type-3 packet.
  abbrev written : Gpu → ℕ → ℕ → ℕ → ℕ → Gpu
  written g buffer i opcode count =
      if writes_memory opcode && leb 3 count
      then memory_write g (word g buffer (i + 2)) (word g buffer (i + 3))
      else g

  written-Keeps : (g : Gpu) (buffer i opcode count : ℕ) → Keeps g (written g buffer i opcode count)
  written-Keeps g buffer i opcode count a o = ground (
    arith,
    memory_write-Keeps g (word g buffer (i + 2)) (word g buffer (i + 3)) (word-lt g buffer (i + 2))
        a o,
  )

  command-Keeps :
      (g : Gpu) (buffer i opcode count : ℕ) → Keeps g (command nested g buffer i opcode count)
  unfolding command count_packet
  command-Keeps g buffer i opcode count a o =
      let g1 : Gpu = count_packet g opcode in
      let g2 : Gpu = written g1 buffer i opcode count in
      ground (
        arith,
        written-Keeps g1 buffer i opcode count a o,
        indirect_buffer-Keeps g2 (word g2 buffer (i + 1)) (word g2 buffer (i + 2)) a o,
      )

  run_packet-Keeps :
      (g : Gpu) (buffer dwords i header : ℕ) → Keeps g (run_packet nested g buffer dwords i header)
  unfolding run_packet
  run_packet-Keeps g buffer dwords i header a o = ground (
    arith,
    write_registers-Keeps (packet_count header) g buffer dwords i (packet_register header) 0
        (register-room header) a o,
    command-Keeps g buffer i (packet_opcode header) (packet_count header) a o,
  )

  packet_step-Keeps :
      (g g' : Gpu) (buffer dwords i i' : ℕ)
      → packet_step nested g buffer dwords i ≡ some (g', i')
      → Keeps g g'
  unfolding packet_step
  packet_step-Keeps g g' buffer dwords i i' e a o =
      ground (arith, e, run_packet-Keeps g buffer dwords i (word g buffer i) a o)

  walk-Keeps :
      (fuel : ℕ) (g : Gpu) (buffer dwords i : ℕ) → Keeps g (walk nested fuel g buffer dwords i)
  unfolding walk
  walk-Keeps zero g buffer dwords i a o = refl
  walk-Keeps (suc fuel) g buffer dwords i a o =
      elim (Option-cases (packet_step nested g buffer dwords i)) [
        | inl e ↦ ap (λ (r : Gpu). r.mem a) (walk_stop nested fuel g buffer dwords i e)
        | inr (r, e) ↦
            ap (λ (r : Gpu). r.mem a) (walk_go nested fuel g buffer dwords i r e)
            ∙ walk-Keeps fuel r.0 buffer dwords r.1 a o
            ∙ packet_step-Keeps g r.0 buffer dwords i r.1 e a o
      ]

-- Whatever the words of a command buffer are, executing it changes no byte outside the register
-- window and the physical alias window.
pub execute_packets-Keeps :
    (levels : ℕ) (g : Gpu) (buffer dwords a : ℕ)
    → Outside a
    → (execute_packets levels g buffer dwords).mem a ≡ g.mem a
unfolding execute_packets
execute_packets-Keeps zero g buffer dwords a o =
    walk-Keeps (λ g' b n. g') (λ g' b n x p. refl) dwords g buffer dwords 0 a o
execute_packets-Keeps (suc levels) g buffer dwords a o =
    walk-Keeps (execute_packets levels) (execute_packets-Keeps levels) dwords g buffer dwords 0 a o
