-- ===== src/Ring/Publish.antt =====
-- What the game sees of the command processor's progress.
use wosrecomp.Base.{
  ℕ, ◌+◌, ◌-◌, ◌*◌, ◌%◌, ◌^◌, ◌≤◌, ◌<◌, ◌≡◌, refl, ◌∙◌, ◌⊎◌, ◌≢◌, List, [], ◌∷◌, arith, u32,
}
use wosrecomp.Guest.{Mem, load_u32, store_u32}
use wosrecomp.Guest.Laws.{load_u32-store_u32, load_u32-store_u32_apart}
use wosrecomp.Phys.{Phys}
use wosrecomp.Packets.{Gpu, execute_packets}
use wosrecomp.Packets.Windows.{Outside, execute_packets-Keeps}
use wosrecomp.Ring.{
  Ring, gpu_write_pointer_reg, gpu_read_pointer_reg, next_capacity, vd_initialize_ring_buffer,
  spans, execute_spans, consume_ring, publish, process_commands,
}

-- Where a write-back address is set that lies apart from the read pointer register, both copies
-- of the read pointer show the write pointer afterwards.
pub publish-shows :
    (r : Ring) (m : Mem) (wptr : ℕ)
    → r.write_back ≢ 0
    → r.write_back < 2 ^ 32
    → (r.write_back + 4 ≤ gpu_read_pointer_reg) ⊎ (gpu_read_pointer_reg + 4 ≤ r.write_back)
    → (load_u32 (publish r m wptr) r.write_back ≡ wptr % 2 ^ 32)
      × (load_u32 (publish r m wptr) gpu_read_pointer_reg ≡ wptr % 2 ^ 32)
unfolding publish
publish-shows r m wptr set fits apart = ground (
  arith,
  load_u32-store_u32 (store_u32 m r.write_back wptr) gpu_read_pointer_reg wptr,
  load_u32-store_u32 m r.write_back wptr,
  load_u32-store_u32_apart (store_u32 m r.write_back wptr) r.write_back gpu_read_pointer_reg wptr,
)

execute_spans-Keeps :
    (ss : List (ℕ × ℕ)) (g : Gpu) (a : ℕ) → Outside a → (execute_spans g ss).mem a ≡ g.mem a
unfolding execute_spans
execute_spans-Keeps [] g a o = refl
execute_spans-Keeps ((buffer, dwords) ∷ rest) g a o =
    execute_spans-Keeps rest (execute_packets 4 g buffer dwords) a o
    ∙ execute_packets-Keeps 4 g buffer dwords a o

-- With a write pointer beyond the capacity and no write-back address, a turn changes no memory
-- but the read pointer register, which shows the write pointer, and the index reached stays.
pub process_commands_refused :
    (p : Phys) (r : Ring) (g : Gpu)
    → let wptr = load_u32 g.mem gpu_write_pointer_reg in
      next_capacity p r wptr < wptr
      → r.write_back ≡ 0
      → ((process_commands p r g).1.mem ≡ store_u32 g.mem gpu_read_pointer_reg wptr)
        × ((process_commands p r g).0.consumed ≡ r.consumed)
unfolding process_commands consume_ring publish
process_commands_refused p r g refused none_set = ground arith

-- After a second ring is set up, a write pointer behind the index reached in the first ring, and
-- in the capacity, runs the second ring's words from that index on only.
pub vd_initialize_ring_buffer_stale :
    (p : Phys) (r : Ring) (g : Gpu) (physical size_log2 wptr : ℕ)
    → let r' = vd_initialize_ring_buffer r physical size_log2 in
      r'.virt ≢ 0
      → r'.size ≢ 0
      → wptr ≤ next_capacity p r' wptr
      → r.consumed < wptr
      → (consume_ring p r' g wptr).1
        ≡ execute_packets 4 g (u32 (r'.virt + r.consumed * 4)) (wptr - r.consumed)
unfolding vd_initialize_ring_buffer consume_ring spans execute_spans
vd_initialize_ring_buffer_stale p r g physical size_log2 wptr set sized room behind = ground arith
