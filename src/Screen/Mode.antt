-- ===== src/Screen/Mode.antt =====
-- What the game reads of the video mode and of the system command buffer.
use wosrecomp.Base.{ℕ, ◌+◌, ◌^◌, ◌≤◌, ◌<◌, ◌≡◌, ◌≢◌, ◌⊎◌, List, [], ◌∷◌, arith}
use wosrecomp.Guest.{Mem, load_u32, store_words}
use wosrecomp.Guest.Fields.{Spaced, Holds, store_words-Holds, store_words_apart}
use wosrecomp.Screen.{display_width, display_height, refresh_rate, write_video_mode}

-- The video mode: 1280 by 720, progressive, wide, high definition, 60 Hz, NTSC.
abbrev pub video_mode : List (ℕ × ℕ)
video_mode =
    (0x00, display_width)
    ∷ (0x04, display_height)
    ∷ (0x08, 0)
    ∷ (0x0C, 1)
    ∷ (0x10, 1)
    ∷ (0x14, refresh_rate)
    ∷ (0x18, 1)
    ∷ (0x1C, 0)
    ∷ (0x20, 0)
    ∷ (0x24, 0)
    ∷ (0x28, 0)
    ∷ (0x2C, 0)
    ∷ []

-- A video mode that is asked for at an address other than 0, with room for 0x30 bytes, fills those
-- bytes as X_VIDEO_MODE, and leaves any word outside of them as it was.
pub write_video_mode-Holds :
    (m : Mem) (out a : ℕ)
    → out ≢ 0
    → out + 0x30 ≤ 2 ^ 32
    → a < 2 ^ 32
    → (a + 4 ≤ out) ⊎ (out + 0x30 ≤ a)
    → Holds (write_video_mode m out) out video_mode
      × (load_u32 (write_video_mode m out) a ≡ load_u32 m a)
unfolding write_video_mode
write_video_mode-Holds m out a set fits low apart =
    let e : write_video_mode m out ≡ store_words m out video_mode = ground arith in
    let spaced : Spaced 0x00 0x30 video_mode = omega arith in
    rw e (
      store_words-Holds out 0x30 fits m 0x00 video_mode spaced,
      store_words_apart out 0x30 fits m 0x00 video_mode a spaced low (omega arith),
    )
