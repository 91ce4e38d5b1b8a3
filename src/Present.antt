-- ===== src/Present.antt =====
-- The presenter's pixels, WoSRecomp/gpu/present.cpp: the front buffer, what a frame puts into the
-- staging texture, and who decides between them. The window, the device and the swap chain are the
-- host's: `mapped` is the memory that the device maps, and its pitch is a parameter.
pub mod Pixels
pub mod Life
use wosrecomp.Base.{
  ℕ, zero, suc, ◌+◌, ◌*◌, ◌/◌, ◌%◌, ◌^◌, Bool, ◌&&◌, ◌||◌, not, true, false, if◌then◌else◌, ltb,
  leb, ◌==◌, List, [], ◌∷◌, min, u32, Option, some, none,
}
use wosrecomp.Guest.{Mem, store_byte}

-- `g_frontBuffer` and its measures, whether `g_staging` is set, its measures, `g_running`,
-- `g_frames`, and whether `g_guestBase` is set.
pub record Presenter : Type 0 where
  pub front_buffer : ℕ
  pub front_width : ℕ
  pub front_height : ℕ
  pub front_pitch : ℕ
  pub has_staging : Bool
  pub staging_width : ℕ
  pub staging_height : ℕ
  pub running : Bool
  pub has_guest : Bool
  pub frames : ℕ

unfoldable pub set_front_buffer : Presenter → ℕ → ℕ → ℕ → ℕ → Presenter
set_front_buffer p guest_addr width height pitch = record p {
  front_buffer = guest_addr;
  front_width = width;
  front_height = height;
  front_pitch = pitch;
}

unfoldable pub has_front_buffer : Presenter → Bool
has_front_buffer p = not (p.front_buffer == 0)

-- The choice of a front buffer in VdSwap, WoSRecomp/kernel/video.cpp: the first argument in the
-- physical window.
unfoldable pub pick_front_buffer : Presenter → List ℕ → Presenter
pick_front_buffer p [] = p
pick_front_buffer p (a ∷ args) =
    let rest = pick_front_buffer p args in
    if leb 0xA000_0000 a && ltb a 0xC000_0000
    then set_front_buffer p a 1280 720 (1280 * 4)
    else rest

unfoldable pub offer_front_buffer : Presenter → List ℕ → Presenter
offer_front_buffer p args = if has_front_buffer p then p else pick_front_buffer p args

-- The inner loop of CopyGuestFrontBuffer, for `n` pixels from the `x`-th on: big-endian ARGB to
-- BGRA. The offsets in a row are `uint32_t`.
unfoldable pub copy_row : ℕ → Mem → ℕ → ℕ → ℕ → Mem → Mem
copy_row zero guest src row x dst = dst
copy_row (suc n) guest src row x dst =
    let a = guest (src + u32 (x * 4 + 0)) in
    let r = guest (src + u32 (x * 4 + 1)) in
    let g = guest (src + u32 (x * 4 + 2)) in
    let b = guest (src + u32 (x * 4 + 3)) in
    let m₁ = store_byte dst (row + u32 (x * 4 + 0)) b in
    let m₂ = store_byte m₁ (row + u32 (x * 4 + 1)) g in
    let m₃ = store_byte m₂ (row + u32 (x * 4 + 2)) r in
    copy_row n guest src row (x + 1) (store_byte m₃ (row + u32 (x * 4 + 3)) a)

-- The outer loop, for `n` rows of `width` pixels from the `y`-th on.
unfoldable pub copy_rows : ℕ → Mem → ℕ → ℕ → ℕ → ℕ → ℕ → Mem → Mem
copy_rows zero guest src src_pitch dst_pitch width y dst = dst
copy_rows (suc n) guest src src_pitch dst_pitch width y dst =
    copy_rows n guest src src_pitch dst_pitch width (y + 1)
      (copy_row width guest (src + y * src_pitch) (y * dst_pitch) 0 dst)

unfoldable pub source_pitch : Presenter → ℕ
source_pitch p = if p.front_pitch == 0 then u32 (p.front_width * 4) else p.front_pitch

-- `CopyGuestFrontBuffer`: guest memory, the mapped pitch, and the mapped texture.
unfoldable pub copy_guest_front_buffer : Presenter → Mem → ℕ → Mem → Mem
copy_guest_front_buffer p guest dst_pitch dst =
    copy_rows (min p.front_height p.staging_height) guest p.front_buffer (source_pitch p) dst_pitch
      (min p.front_width p.staging_width) 0 dst

-- `WriteTestPatternRow`, for `n` pixels from the `x`-th on.
unfoldable pub pattern_row : ℕ → Presenter → ℕ → ℕ → ℕ → Mem → Mem
pattern_row zero p row x y dst = dst
pattern_row (suc n) p row x y dst =
    let width = if p.staging_width == 0 then 1 else p.staging_width in
    let height = if p.staging_height == 0 then 1 else p.staging_height in
    let m₁ = store_byte dst (row + u32 (x * 4 + 0)) (u32 (x * 255) / width) in
    let m₂ = store_byte m₁ (row + u32 (x * 4 + 1)) (u32 (y * 255) / height) in
    let m₃ = store_byte m₂ (row + u32 (x * 4 + 2)) (p.frames % 256) in
    pattern_row n p row (x + 1) y (store_byte m₃ (row + u32 (x * 4 + 3)) 0xFF)

unfoldable pub pattern_rows : ℕ → Presenter → ℕ → ℕ → Mem → Mem
pattern_rows zero p dst_pitch y dst = dst
pattern_rows (suc n) p dst_pitch y dst =
    pattern_rows n p dst_pitch (y + 1) (pattern_row p.staging_width p (y * dst_pitch) 0 y dst)

-- What the host grants: a window, a device with its swap chain, and a texture.
pub record Host : Type 0 where
  pub opens_window : Bool
  pub creates_device : Bool
  pub creates_texture : Bool

unfoldable pub create_staging : Host → Presenter → ℕ → ℕ → Presenter × Bool
create_staging host p width height =
    if p.has_staging && p.staging_width == width && p.staging_height == height
    then (p, true)
    else if not host.creates_texture
    then (record p { has_staging = false }, false)
    else (record p { has_staging = true; staging_width = width; staging_height = height }, true)

unfoldable pub start_running : Presenter × Bool → Presenter × Bool
start_running (p, made) = if not made then (p, false) else (record p { running = true }, true)

-- `StartPresenter`, with the kDefaultWidth and kDefaultHeight of its source.
unfoldable pub start_presenter : Host → ℕ → Presenter → Presenter × Bool
start_presenter host guest_base p =
    let known = record p { has_guest = not (guest_base == 0) } in
    if p.running
    then (p, true)
    else if not host.opens_window || not host.creates_device
    then (known, false)
    else start_running (create_staging host known 1280 720)

unfoldable pub shutdown_presenter : Presenter → Presenter
shutdown_presenter p = record p { running = false; has_staging = false }

-- `PresentFrame`: `mapped` is the pitch of the texture, or `none` where the host does not map it. A
-- frame that is drawn is counted.
unfoldable pub present_frame : Presenter → Mem → Option ℕ → Mem → Presenter × Mem
present_frame p guest none dst = (p, dst)
present_frame p guest (some dst_pitch) dst =
    let pixels =
      if has_front_buffer p && p.has_guest
      then copy_guest_front_buffer p guest dst_pitch dst
      else pattern_rows p.staging_height p dst_pitch 0 dst in
    if not p.running then (p, dst) else (record p { frames = (p.frames + 1) % 2 ^ 64 }, pixels)
