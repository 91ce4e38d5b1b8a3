-- ===== src/Ring.antt =====
-- The command processor, WoSRecomp/kernel/video.cpp: VdInitializeRingBuffer,
-- VdEnableRingBufferRPtrWriteBack, `ConsumeRing` and a turn of `CommandProcessorThread`.
-- What the source prints, and the statics that only limit the printing, are left out.
pub mod Growth
pub mod Spans
pub mod Publish
use wosrecomp.Base.{
  ℕ, zero, suc, ◌+◌, ◌-◌, ◌*◌, ◌/◌, ◌^◌, Bool, ◌&&◌, ◌||◌, not, if◌then◌else◌, ltb, ◌==◌, List, [],
  ◌∷◌, u32, sub32,
}
use wosrecomp.Guest.{Mem, load_u32, store_u32}
use wosrecomp.Phys.{Phys, physical_block_end, physical_to_virtual}
use wosrecomp.Packets.{Gpu, gpu_register_base, execute_packets}

abbrev pub gpu_write_pointer_reg : ℕ
gpu_write_pointer_reg = gpu_register_base + 0x714

abbrev pub gpu_read_pointer_reg : ℕ
gpu_read_pointer_reg = gpu_register_base + 0x710

-- `g_ringPhysical`, `g_ringVirtual`, `g_ringSize`, `g_rptrWriteBackPtr`, and the statics
-- `s_consumed` and `s_capacity` of `ConsumeRing`.
pub record Ring : Type 0 where
  pub physical : ℕ
  pub virt : ℕ
  pub size : ℕ
  pub write_back : ℕ
  pub consumed : ℕ
  pub capacity : ℕ

abbrev pub no_ring : Ring
no_ring = record { physical = 0; virt = 0; size = 0; write_back = 0; consumed = 0; capacity = 0 }

unfoldable pub alias_or_null : ℕ → ℕ
alias_or_null physical = if physical == 0 then 0 else physical_to_virtual physical

-- VdInitializeRingBuffer(r3 = physical, r4 = log2 of the number of words).
unfoldable pub vd_initialize_ring_buffer : Ring → ℕ → ℕ → Ring
vd_initialize_ring_buffer r physical size_log2 = record r {
  physical = physical;
  virt = alias_or_null physical;
  size = if ltb size_log2 32 then 2 ^ size_log2 else 0;
}

-- VdEnableRingBufferRPtrWriteBack(r3 = physical).
unfoldable pub vd_enable_ring_buffer_rptr_write_back : Ring → Mem → ℕ → Ring × Mem
vd_enable_ring_buffer_rptr_write_back r m physical =
    let virt = alias_or_null physical in
    (record r { write_back = virt }, if virt == 0 then m else store_u32 m virt 0)

-- `while (grown < wptr && grown < (1u << 30)) grown <<= 1`, on fuel.
unfoldable pub grow : ℕ → ℕ → ℕ → ℕ
grow zero wptr grown = grown
grow (suc fuel) wptr grown =
    let rest = grow fuel wptr (u32 (grown * 2)) in
    if ltb grown wptr && ltb grown (2 ^ 30) then rest else grown

-- The words from the ring to the end of the physical block that it lies in; 0 for none.
unfoldable pub max_dwords : Phys → ℕ → ℕ
max_dwords p ring =
    let block_end = physical_block_end p ring in
    if ltb ring block_end then (block_end - ring) / 4 else 0

-- The capacity of the ring for a write pointer, from the one before.
unfoldable pub next_capacity : Phys → Ring → ℕ → ℕ
next_capacity p r wptr =
    let known = if ltb r.capacity r.size then r.size else r.capacity in
    let grown = grow 31 wptr (if known == 0 then 1 else known) in
    let limit = max_dwords p r.virt in
    if ltb known wptr then if not (limit == 0) && ltb limit grown then limit else grown else known

-- The one or two straight runs, address and number of words, from `consumed` to `wptr`.
unfoldable pub spans : ℕ → ℕ → ℕ → ℕ → List (ℕ × ℕ)
spans ring capacity consumed wptr =
    if ltb consumed wptr
    then (u32 (ring + consumed * 4), wptr - consumed) ∷ []
    else (u32 (ring + consumed * 4), sub32 capacity consumed) ∷ (ring, wptr) ∷ []

unfoldable pub execute_spans : Gpu → List (ℕ × ℕ) → Gpu
execute_spans g [] = g
execute_spans g ((buffer, dwords) ∷ rest) = execute_spans (execute_packets 4 g buffer dwords) rest

-- `ConsumeRing`.
unfoldable pub consume_ring : Phys → Ring → Gpu → ℕ → Ring × Gpu
consume_ring p r g wptr =
    let capacity = next_capacity p r wptr in
    if r.virt == 0 || r.size == 0
    then (r, g)
    else if ltb capacity wptr
    then (record r { capacity = capacity }, g)
    else if wptr == r.consumed
    then (record r { capacity = capacity }, g)
    else (
      record r { capacity = capacity; consumed = wptr },
      execute_spans g (spans r.virt capacity r.consumed wptr),
    )

-- The writes at the end of a turn of `CommandProcessorThread`.
unfoldable pub publish : Ring → Mem → ℕ → Mem
publish r m wptr =
    store_u32 (if r.write_back == 0 then m else store_u32 m r.write_back wptr) gpu_read_pointer_reg
      wptr

-- A turn of `CommandProcessorThread`.
unfoldable pub process_commands : Phys → Ring → Gpu → Ring × Gpu
process_commands p r g =
    let wptr = load_u32 g.mem gpu_write_pointer_reg in
    let (r', g') = consume_ring p r g wptr in (r', record g' { mem = publish r' g'.mem wptr })
