-- ===== src/Audio.antt =====
-- The audio imports, WoSRecomp/kernel/audio.cpp: each gives the result in r3 and guest memory. What
-- the first prints of the client's words is left out.
use wosrecomp.Base.{ℕ, ◌==◌, ◌≡◌, ◌≢◌, if◌then◌else◌, arith, false}
use wosrecomp.Guest.{Mem, load_u32, store_u32, status_success}
use wosrecomp.Guest.Laws.{load_u32-store_u32}

abbrev driver_handle : ℕ
driver_handle = 0x4155_0001

unfoldable xaudio_register_render_driver_client : Mem → ℕ → ℕ → ℕ × Mem
xaudio_register_render_driver_client m client handle_out =
    (status_success, if handle_out == 0 then m else store_u32 m handle_out driver_handle)

unfoldable xaudio_unregister_render_driver_client : Mem → ℕ × Mem
xaudio_unregister_render_driver_client m = (status_success, m)

unfoldable xaudio_get_speaker_config : Mem → ℕ → ℕ × Mem
xaudio_get_speaker_config m out = (status_success, if out == 0 then m else store_u32 m out 1)

-- The volume is the float 1.0.
unfoldable xaudio_get_voice_category_volume : Mem → ℕ → ℕ × Mem
xaudio_get_voice_category_volume m out =
    (status_success, if out == 0 then m else store_u32 m out 0x3F80_0000)

-- Where the out-parameter is not null, the game reads its driver handle there.
xaudio_register_render_driver_client-handle :
    (m : Mem) (client handle_out : ℕ)
    → handle_out ≢ 0
    → load_u32 (xaudio_register_render_driver_client m client handle_out).1 handle_out
      ≡ driver_handle
unfolding xaudio_register_render_driver_client
xaudio_register_render_driver_client-handle m client handle_out set =
    let there : (handle_out == 0) ≡ false = ground arith in
    rw there (load_u32-store_u32 m handle_out driver_handle)
