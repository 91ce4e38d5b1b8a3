-- ===== src/Screen.antt =====
-- The display side of the video driver, WoSRecomp/kernel/video.cpp: the video mode, the graphics
-- interrupt callback, swaps, and a turn of the thread that stands in for the vertical blank. The
-- presenter and the reports are left out; what the ring does is the subject of Ring.
pub mod Swaps
pub mod Mode
use wosrecomp.Base.{
  ℕ, ◌+◌, ◌-◌, ◌^◌, Bool, true, false, not, ◌&&◌, if◌then◌else◌, ltb, ◌==◌, Option, none, some,
  List, [], ◌∷◌, ◌++◌, bit_or, u32, u64,
}
use wosrecomp.Guest.{Mem, load_u32, store_u32, store_words}
use wosrecomp.Heap.{Heap, Commit, guest_alloc}
use wosrecomp.Pcr.{create_thread_pcr}

-- `g_interruptCallback`, `g_interruptUserData`, `g_swapPending`, `g_vblankRunning`,
-- `g_vblankCount`, the statics of VblankThread and VdGetSystemCommandBuffer, and what the guest's
-- code works on.
pub record Screen : Type 0 where
  pub mem : Mem
  pub heap : Heap
  pub thread_blocks : List ℕ
  pub interrupt_callback : ℕ
  pub interrupt_user_data : ℕ
  pub swap_pending : Bool
  pub vblank_running : Bool
  pub vblank_count : ℕ
  pub interrupt_stack : ℕ
  pub interrupt_pcr : ℕ
  pub command_buffer : ℕ

-- The registers that the callback is called with.
pub record Registers : Type 0 where
  pub r1 : ℕ
  pub r3 : ℕ
  pub r4 : ℕ
  pub r13 : ℕ

-- The recompiled functions.
abbrev pub Code : Type 0
Code = ℕ → Option (Registers → Screen → Registers × Screen)

abbrev pub gpu_vblank_status_reg : ℕ
gpu_vblank_status_reg = 0x7FC8_6544

abbrev pub interrupt_stack_size : ℕ
interrupt_stack_size = 0x20000

abbrev pub source_vblank : ℕ
source_vblank = 0

abbrev pub source_swap : ℕ
source_swap = 1

-- VdSetGraphicsInterruptCallback(r3 = callback, r4 = user data): the first callback starts the
-- threads.
unfoldable pub vd_set_graphics_interrupt_callback : Screen → ℕ → ℕ → Screen
vd_set_graphics_interrupt_callback d callback user_data = record d {
  interrupt_callback = callback;
  interrupt_user_data = user_data;
  vblank_running = if callback == 0 then d.vblank_running else true;
}

-- VdShutdownEngines.
unfoldable pub vd_shutdown_engines : Screen → Screen
vd_shutdown_engines d = record d { vblank_running = false }

-- VdSwap, apart from the presenter's front buffer.
unfoldable pub vd_swap : Screen → ℕ × Screen
vd_swap d = (0, record d { swap_pending = true })

-- The interrupt's stack and its thread block, which are made once.
unfoldable pub with_stack : Commit → Screen → Screen
with_stack commit d =
    let (stack, h) = guest_alloc commit d.heap 0 interrupt_stack_size 0x10000 in
    if d.interrupt_stack == 0 then record d { interrupt_stack = stack; heap = h } else d

unfoldable pub with_pcr : Commit → Screen → Screen
with_pcr commit d =
    let (pcr, m, h, blocks) = create_thread_pcr commit d.mem d.heap d.thread_blocks in
    if d.interrupt_pcr == 0
    then record d { interrupt_pcr = pcr; mem = m; heap = h; thread_blocks = blocks }
    else d

-- The status register says that a vblank is pending.
unfoldable pub raise_vblank : Screen → Screen
raise_vblank d = record d {
  mem = store_u32 d.mem gpu_vblank_status_reg (bit_or (load_u32 d.mem gpu_vblank_status_reg) 1);
}

-- The swap interrupt behind the vblank's, with the registers that the first call left.
unfoldable pub deliver_swap :
    (Registers → Screen → Registers × Screen) → Registers → Screen → Screen
deliver_swap fn ctx d =
    let called =
      fn (record ctx { r3 = source_swap; r4 = d.interrupt_user_data })
        (record d { swap_pending = false }) in
    if d.swap_pending then called.1 else d

unfoldable pub count_vblank : Screen → Screen
count_vblank d = record d { vblank_count = u64 (d.vblank_count + 1) }

-- The calls of a turn, once there is a function and a stack.
unfoldable pub entry : Screen → Registers
entry d = record {
  r1 = u32 (d.interrupt_stack + (interrupt_stack_size + 2 ^ 32 - 0x100));
  r3 = source_vblank;
  r4 = d.interrupt_user_data;
  r13 = d.interrupt_pcr;
}

unfoldable pub interrupt : Commit → (Registers → Screen → Registers × Screen) → Screen → Screen
interrupt commit fn d =
    let d₁ = with_pcr commit d in
    let (ctx, d₂) = fn (entry d₁) (raise_vblank d₁) in count_vblank (deliver_swap fn ctx d₂)

unfoldable pub run_interrupt :
    Commit → Option (Registers → Screen → Registers × Screen) → Screen → Screen
run_interrupt commit none d = d
run_interrupt commit (some fn) d =
    let d₁ = with_stack commit d in if d₁.interrupt_stack == 0 then d₁ else interrupt commit fn d₁

-- A turn of VblankThread, apart from the presenter and the ring's report.
unfoldable pub vblank : Commit → Code → Screen → Screen
vblank commit code d =
    if d.interrupt_callback == 0 then d else run_interrupt commit (code d.interrupt_callback) d

abbrev pub display_width : ℕ
display_width = 1280

abbrev pub display_height : ℕ
display_height = 720

-- The bits of 60.0f.
abbrev pub refresh_rate : ℕ
refresh_rate = 0x4270_0000

-- `WriteVideoMode`, for VdQueryVideoMode, XGetVideoMode and VdGetCurrentDisplayInformation (r3 =
-- out).
unfoldable pub write_video_mode : Mem → ℕ → Mem
write_video_mode m out =
    if out == 0
    then m
    else store_words m out (
        (0x00, display_width)
        ∷ (0x04, display_height)
        ∷ (0x08, 0)
        ∷ (0x0C, 1)
        ∷ (0x10, 1)
        ∷ (0x14, refresh_rate)
        ∷ (0x18, 1)
        ∷ (0x1C, 0)
        ∷ (0x20, 0)
        ∷ (0x24, 0)
        ∷ (0x28, 0)
        ∷ (0x2C, 0)
        ∷ [])

-- VdGetCurrentDisplayGamma(r3 = type out, r4 = gamma out), with the bits of 2.222222f.
abbrev pub gamma : ℕ
gamma = 0x400E38E3

unfoldable pub vd_get_current_display_gamma : Mem → ℕ → ℕ → Mem
vd_get_current_display_gamma m type_out gamma_out =
    let m' = if type_out == 0 then m else store_u32 m type_out 2 in
    if gamma_out == 0 then m' else store_u32 m' gamma_out gamma

abbrev pub system_command_buffer_size : ℕ
system_command_buffer_size = 0x10000

-- The descriptor of eight words, all 0.
abbrev pub empty_descriptor : List (ℕ × ℕ)
empty_descriptor =
    (0x00, 0)
    ∷ (0x04, 0)
    ∷ (0x08, 0)
    ∷ (0x0C, 0)
    ∷ (0x10, 0)
    ∷ (0x14, 0)
    ∷ (0x18, 0)
    ∷ (0x1C, 0)
    ∷ []

-- VdGetSystemCommandBuffer(r3 = descriptor out, r4 = value out): the buffer is made once.
unfoldable pub with_command_buffer : Commit → Screen → Screen
with_command_buffer commit d =
    let (buffer, h) = guest_alloc commit d.heap 0 system_command_buffer_size 0x1000 in
    if d.command_buffer == 0 then record d { command_buffer = buffer; heap = h } else d

unfoldable pub vd_get_system_command_buffer : Commit → Screen → ℕ → ℕ → Screen
vd_get_system_command_buffer commit d descriptor_out value_out =
    let d₁ = with_command_buffer commit d in
    let m =
      if descriptor_out == 0 then d₁.mem else store_words d₁.mem descriptor_out empty_descriptor in
    record d₁ { mem = if value_out == 0 then m else store_u32 m value_out d₁.command_buffer }
