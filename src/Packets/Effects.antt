-- ===== src/Packets/Effects.antt =====
-- What the register writes and the memory writes of the command stream do.
use wosrecomp.Base.{
  ℕ, zero, suc, ◌+◌, ◌*◌, ◌%◌, ◌^◌, ◌≤◌, ◌<◌, ◌≡◌, refl, ap, ◌∙◌, ◌⊎◌, true, arith, u32,
}
use native.Mathlib.Nat.{mod-eq_of_lt}
use wosrecomp.Guest.{load_u32, store_u32}
use wosrecomp.Guest.Laws.{load_u32-store_u32, load_u32-store_u32_apart}
use wosrecomp.Packets.{
  Gpu, Nested, gpu_register_base, physical_alias, physical_alias_end, write_register,
  write_registers, count_packet, write_target, memory_write, command, word, writes_memory,
}
use wosrecomp.Packets.Windows.{gpu_register_end, word-lt}

-- The buffer lies beside the register window.
abbrev pub Beside : ℕ → ℕ → Type 0
Beside buffer dwords =
    (buffer + dwords * 4 ≤ gpu_register_base)
    ⊎ ((gpu_register_end ≤ buffer) × (buffer + dwords * 4 ≤ 2 ^ 32))

abbrev pub register_at : Gpu → ℕ → ℕ
register_at g reg = load_u32 g.mem (gpu_register_base + reg * 4)

register-write_register :
    (g : Gpu) (reg value : ℕ) → register_at (write_register g reg value) reg ≡ value % 2 ^ 32
unfolding write_register
register-write_register g reg value = load_u32-store_u32 g.mem (gpu_register_base + reg * 4) value

module _ (buffer dwords : ℕ) (beside : Beside buffer dwords) where
  -- A register write changes no word of the buffer.
  word-write_register :
      (g : Gpu) (reg value k : ℕ)
      → reg < 0xBFFF
      → k < dwords
      → word (write_register g reg value) buffer k ≡ word g buffer k
  unfolding write_register
  word-write_register g reg value k small inside =
      load_u32-store_u32_apart g.mem (buffer + k * 4) (gpu_register_base + reg * 4) value
        (grind arith)

  -- The registers before the run keep their values.
  write_registers-before :
      (n : ℕ) (g : Gpu) (i first j reg : ℕ)
      → first + j + n ≤ 0xBFFF
      → reg < first + j
      → load_u32 (write_registers n g buffer dwords i first j).mem (gpu_register_base + reg * 4)
        ≡ load_u32 g.mem (gpu_register_base + reg * 4)
  unfolding write_registers write_register
  write_registers-before zero g i first j reg small before = refl
  write_registers-before (suc n) g i first j reg small before = ground (
    arith,
    write_registers-before n (write_register g (first + j) (word g buffer (i + 1 + j))) i first
        (j + 1) reg (omega arith) (omega arith),
    load_u32-store_u32_apart g.mem (gpu_register_base + reg * 4)
        (gpu_register_base + (first + j) * 4) (word g buffer (i + 1 + j)),
  )

  write_registers_go :
      (n : ℕ) (g : Gpu) (i first j : ℕ)
      → u32 (i + 1 + j) < dwords
      → write_registers (suc n) g buffer dwords i first j
        ≡ write_registers n
            (write_register g (first + j) (word g buffer (i + 1 + j)))
            buffer
            dwords
            i
            first
            (j + 1)
  unfolding write_registers
  write_registers_go n g i first j inside = ground arith

  -- A type-0 packet that lies in the buffer copies its payload to consecutive registers, if the
  -- buffer lies beside the register window and the registers are in it.
  pub write_registers-copies :
      (n : ℕ) (g : Gpu) (i first j k : ℕ)
      → dwords < 2 ^ 32
      → first + j + n ≤ 0xBFFF
      → i + j + n < dwords
      → k < n
      → load_u32
          (write_registers n g buffer dwords i first j).mem
          (gpu_register_base + (first + j + k) * 4)
        ≡ word g buffer (i + 1 + j + k)
  unfolding write_registers
  write_registers-copies zero g i first j k wide small inside less = absurd (omega arith)
  write_registers-copies (suc n) g i first j zero wide small inside less =
      let value : ℕ = word g buffer (i + 1 + j) in
      let next : Gpu = write_register g (first + j) value in
      let here : (first + j + 0 ≡ first + j) × (i + 1 + j + 0 ≡ i + 1 + j) =
        (omega arith, omega arith) in
      rw (here.0, here.1)
        (ap (λ (r : Gpu). register_at r (first + j))
            (write_registers_go n g i first j (omega arith))
          ∙ write_registers-before n next i first (j + 1) (first + j) (omega arith) (omega arith)
          ∙ register-write_register g (first + j) value
          ∙ mod-eq_of_lt (word-lt g buffer (i + 1 + j)))
  write_registers-copies (suc n) g i first j (suc k) wide small inside less =
      let next : Gpu = write_register g (first + j) (word g buffer (i + 1 + j)) in
      let there : (first + j + suc k ≡ first + (j + 1) + k)
          × (i + 1 + j + suc k ≡ i + 1 + (j + 1) + k) =
        (omega arith, omega arith) in
      rw (there.0, there.1)
        (ap (λ (r : Gpu). register_at r (first + (j + 1) + k))
            (write_registers_go n g i first j (omega arith))
          ∙ write_registers-copies n next i first (j + 1) k wide (omega arith) (omega arith)
              (omega arith)
          ∙ word-write_register g (first + j) _ (i + 1 + (j + 1) + k) (omega arith) (omega arith))

-- A packet with one of the three opcodes that write to memory and at least three words, whose
-- address resolves into the alias window, stores its value there, and changes no other memory;
-- address and value are those that stood in the buffer before.
pub command-writes :
    (nested : Nested) (g : Gpu) (buffer i opcode count : ℕ)
    → writes_memory opcode ≡ true
    → 3 ≤ count
    → physical_alias ≤ write_target (word g buffer (i + 2))
    → write_target (word g buffer (i + 2)) < physical_alias_end
    → (command nested g buffer i opcode count).mem
      ≡ store_u32 g.mem (write_target (word g buffer (i + 2))) (word g buffer (i + 3))
unfolding command memory_write count_packet
command-writes nested g buffer i opcode count op long low high = ground arith
