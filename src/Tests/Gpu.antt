-- ===== src/Tests/Gpu.antt =====
-- A small ring, and packets in it.
use wosrecomp.Base.{◌+◌, ◌*◌, ◌≡◌, refl, inl, false, [], ◌∷◌, arith, u32}
use wosrecomp.Guest.{Mem, load_u32, store_u32, store_byte, copy_out, copy_in}
use wosrecomp.Guest.Word.{bswap32}
use wosrecomp.Phys.{Phys, physical_block_end, block_end, physical_to_virtual}
use wosrecomp.Phys
use wosrecomp.Pm4.{no_census}
use wosrecomp.Packets.{Gpu, Nested, word, write_target, walk, execute_packets}
use wosrecomp.Packets.Windows.{execute_packets-Keeps}
use wosrecomp.Packets.Fuel.{walk-enough}
use wosrecomp.Ring.{
  Ring, gpu_write_pointer_reg, max_dwords, next_capacity, consume_ring, vd_initialize_ring_buffer,
  grow, alias_or_null,
}
use wosrecomp.Ring.Publish.{vd_initialize_ring_buffer_stale}

abbrev zero_mem : Mem
zero_mem a = 0

abbrev idle : Gpu
idle = record { mem = zero_mem; census = no_census; seen = λ op. false }

-- A ring of 0x1000 words whose physical block is not known.
abbrev small_ring : Ring
small_ring = record {
  physical = 0x3_0000;
  virt = 0xA003_0000;
  size = 0x1000;
  write_back = 0xA006_023C;
  consumed = 0x20;
  capacity = 0x1000;
}

execute_packets-Keeps_example : (execute_packets 4 idle 0xA003_0000 16).mem 0x4000_0000 ≡ 0
execute_packets-Keeps_example =
    execute_packets-Keeps 4 idle 0xA003_0000 16 0x4000_0000 (inl (omega arith), inl (omega arith))

abbrev skip : Nested
skip g buffer dwords = g

walk-enough_example : walk skip 100 idle 0xA003_0000 16 0 ≡ walk skip 16 idle 0xA003_0000 16 0
walk-enough_example =
    walk-enough skip 16 100 idle 0xA003_0000 16 0 (omega arith) (omega arith) (omega arith)

-- A fence packet at 0xA0030000: initiator, address 0x00060206, value.
abbrev fence_mem : Mem
fence_mem = store_u32 (store_u32 zero_mem 0xA003_0008 0x0006_0206) 0xA003_000C 0x54F

abbrev fenced : Gpu
fenced = record { mem = fence_mem; census = no_census; seen = λ op. false }

fence_target : write_target (word fenced 0xA003_0000 2) ≡ 0xA006_0204
unfolding write_target physical_to_virtual load_u32 store_u32 copy_out copy_in store_byte bswap32
fence_target = refl

-- A ring of two words in a block of two words, and a write pointer of 5.
abbrev tight_phys : Phys
tight_phys = record {
  next = 0xA000_0008;
  allocated = 8;
  blocks = record { begin = 0xA000_0000; end = 0xA000_0008 } ∷ [];
}

abbrev tight_ring : Ring
tight_ring = record {
  physical = 0;
  virt = 0xA000_0000;
  size = 2;
  write_back = 0;
  consumed = 0;
  capacity = 0;
}

abbrev ahead : Gpu
ahead = record {
  mem = store_u32 zero_mem gpu_write_pointer_reg 5;
  census = no_census;
  seen = λ op. false;
}

ahead_wptr : load_u32 ahead.mem gpu_write_pointer_reg ≡ 5
unfolding load_u32 store_u32 copy_out copy_in store_byte bswap32
ahead_wptr = refl

tight_capacity : next_capacity tight_phys tight_ring 5 ≡ 2
unfolding next_capacity max_dwords physical_block_end block_end grow
tight_capacity = refl

second_ring :
    ((vd_initialize_ring_buffer small_ring 0x5_0000 12).virt ≡ 0xA005_0000)
    × ((vd_initialize_ring_buffer small_ring 0x5_0000 12).size ≡ 0x1000)
    × (next_capacity Phys.start (vd_initialize_ring_buffer small_ring 0x5_0000 12) 0x25 ≡ 0x1000)
unfolding next_capacity max_dwords physical_block_end block_end grow vd_initialize_ring_buffer
    alias_or_null physical_to_virtual
second_ring = (refl, refl, refl)

vd_initialize_ring_buffer_stale_example :
    (consume_ring Phys.start (vd_initialize_ring_buffer small_ring 0x5_0000 12) idle 0x25).1
    ≡ execute_packets 4 idle
        (u32 ((vd_initialize_ring_buffer small_ring 0x5_0000 12).virt + 0x20 * 4))
        5
vd_initialize_ring_buffer_stale_example =
    vd_initialize_ring_buffer_stale Phys.start small_ring idle 0x5_0000 12 0x25
      (omega (arith, second_ring)) (omega (arith, second_ring)) (omega (arith, second_ring))
      (omega arith)
